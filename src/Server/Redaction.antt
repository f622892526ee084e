-- ===== src/Server/Redaction.antt =====
-- What `redact` (frontend/lib/server/backend.ts) lets through and what it withholds.
pub mod Paths
mod Examples
use fintech_innova_hack.Prelude.{◌≡◌, refl, ◌≢◌, true, false, arith}
use fintech_innova_hack.Prelude.Text.{Text}
use fintech_innova_hack.Json.{
  Json, Elems, Entries, null, bool, num, str, arr, obj, nil, cons, end, entry,
}
use fintech_innova_hack.Server.Backend.{is_secret, mask, redact, redact_elems, redact_entries}

-- Two documents that differ at most in what stands under a secret key, where neither is null.
mutual
  pub data Alike : Json → Json → Type 0 where
    same : (v : Json) → Alike v v
    alike_arr : {vs ws : Elems} → AlikeElems vs ws → Alike (arr vs) (arr ws)
    alike_obj : {es fs : Entries} → AlikeEntries es fs → Alike (obj es) (obj fs)

  pub data AlikeElems : Elems → Elems → Type 0 where
    alike_nil : AlikeElems nil nil
    alike_cons :
        {v w : Json} {vs ws : Elems}
        → Alike v w
        → AlikeElems vs ws
        → AlikeElems (cons v vs) (cons w ws)

  pub data AlikeEntries : Entries → Entries → Type 0 where
    alike_end : AlikeEntries end end
    shown :
        {k : Text} {v w : Json} {es fs : Entries}
        → Alike v w
        → AlikeEntries es fs
        → AlikeEntries (entry k v es) (entry k w fs)
    hidden :
        {k : Text} {v w : Json} {es fs : Entries}
        → is_secret k ≡ true
        → v ≢ null
        → w ≢ null
        → AlikeEntries es fs
        → AlikeEntries (entry k v es) (entry k w fs)

mask_ne_null : (v w : Json) → v ≢ null → w ≢ null → mask v ≡ mask w
unfolding mask
mask_ne_null v w h k = ground arith

mask-Alike : {v w : Json} → Alike v w → mask v ≡ mask w
unfolding mask
mask-Alike (same v) = refl
mask-Alike (alike_arr h) = refl
mask-Alike (alike_obj h) = refl

mutual
  unfolding redact

  redact-Alike_lem : {v w : Json} → Alike v w → redact v ≡ redact w
  redact-Alike_lem (same v) = refl
  redact-Alike_lem (alike_arr h) = rw (redact_elems-Alike h)
  redact-Alike_lem (alike_obj h) = rw (redact_entries-Alike h)

  redact_elems-Alike : {vs ws : Elems} → AlikeElems vs ws → redact_elems vs ≡ redact_elems ws
  redact_elems-Alike alike_nil = refl
  redact_elems-Alike (alike_cons h hs) = rw (redact-Alike_lem h, redact_elems-Alike hs)

  redact_entries-Alike :
      {es fs : Entries} → AlikeEntries es fs → redact_entries es ≡ redact_entries fs
  redact_entries-Alike alike_end = refl
  redact_entries-Alike (shown h hs) = rw (mask-Alike h, redact-Alike_lem h, redact_entries-Alike hs)
  redact_entries-Alike (hidden {v = v} {w = w} s n m hs) =
      rw (s, mask_ne_null v w n m, redact_entries-Alike hs)

-- The redacted document is the same for any two documents that differ only in values other than
-- null under secret keys, at any depth: nothing of a secret but its presence can be read from it.
pub redact-Alike : {v w : Json} → Alike v w → redact v ≡ redact w
redact-Alike h = redact-Alike_lem h

mutual
  unfolding redact mask

  redact_idem_lem : (v : Json) → redact (redact v) ≡ redact v
  redact_idem_lem null = refl
  redact_idem_lem (bool b) = refl
  redact_idem_lem (num n) = refl
  redact_idem_lem (str s) = refl
  redact_idem_lem (arr vs) = rw (redact_elems_idem vs)
  redact_idem_lem (obj es) = rw (redact_entries_idem es)

  redact_elems_idem : (vs : Elems) → redact_elems (redact_elems vs) ≡ redact_elems vs
  redact_elems_idem nil = refl
  redact_elems_idem (cons v vs) = rw (redact_idem_lem v, redact_elems_idem vs)

  redact_entries_idem : (es : Entries) → redact_entries (redact_entries es) ≡ redact_entries es
  redact_entries_idem end = refl
  redact_entries_idem (entry k v es) = ground (arith, redact_idem_lem v, redact_entries_idem es)

-- Redacting a redacted document changes nothing.
pub redact_idem : (v : Json) → redact (redact v) ≡ redact v
redact_idem v = redact_idem_lem v
