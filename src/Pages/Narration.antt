-- ===== src/Pages/Narration.antt =====
-- frontend/components/voice/decision-narration.tsx: `listen`, and what leaving the page cleans up. An
-- object URL is a number, and `live` holds those that were created and not revoked. What the pieces of
-- `listen` do between two awaits is one step; a button that is disabled is not pressed.
use fintech_innova_hack.Prelude.{
  ℕ, ◌+◌, ◌≡◌, refl, sym, ap, ◌∙◌, ◌≢◌, ◌⊎◌, inl, inr, Bool-cases, Bool, true, false, not, Option,
  none, some, List, [], ◌∷◌, keep, arith, ◌==◌,
}
use fintech_innova_hack.Prelude.Text.{Text, codes}

-- How far a call of `listen` is: none runs, the audio is fetched, or it is about to play.
pub data Phase : Type 0 where
  resting loading starting : Phase

pub record Narration : Type 0 where
  pub mounted : Bool
  pub requested : Bool
  pub fetching : Bool
  pub audio_error : Option Text
  pub url : Option ℕ
  pub playing : Bool
  pub phase : Phase
  pub live : List ℕ
  pub fresh_url : ℕ

abbrev pub silent : Narration
silent = record {
  mounted = true;
  requested = false;
  fetching = false;
  audio_error = none;
  url = none;
  playing = false;
  phase = resting;
  live = [];
  fresh_url = 0;
}

abbrev pub voice_unavailable : Text
voice_unavailable = codes "Voice narration is not available right now"

-- `URL.revokeObjectURL`, if there is one
revoke : Option ℕ → List ℕ → List ℕ
revoke none urls = urls
revoke (some u) urls = keep (λ v. not (v == u)) urls

unfoldable pub listen : Narration → Narration
listen s = record s { requested = true; audio_error = none; fetching = true; phase = loading }

-- After the audio has come: the old one is paused and its URL revoked, and a new one is to play.
unfoldable pub receive_blob : Narration → Narration
unfolding revoke
receive_blob s = record s {
  url = some s.fresh_url;
  playing = true;
  phase = starting;
  live = s.fresh_url ∷ revoke s.url s.live;
  fresh_url = s.fresh_url + 1;
}

-- `catch` and `finally`
unfoldable pub fail_fetch : Narration → Narration
fail_fetch s = record s { audio_error = some voice_unavailable; fetching = false; phase = resting }

-- What becomes of `audio.play()`.
unfoldable pub settle_play : Bool → Narration → Narration
settle_play true s = record s { fetching = false; phase = resting }
settle_play false s = record s {
  audio_error = some voice_unavailable;
  fetching = false;
  phase = resting;
  playing = false;
}

-- The cleanup of the effect. It leaves the references as they are.
unfoldable pub leave : Narration → Narration
unfolding revoke
leave s = record s { mounted = false; playing = false; live = revoke s.url s.live }

pub data Playback : Narration → Narration → Type 0 where
  pressed : (s : Narration) → s.mounted ≡ true → s.fetching ≡ false → Playback s (listen s)
  came : (s : Narration) → s.phase ≡ loading → Playback s (receive_blob s)
  failed : (s : Narration) → s.phase ≡ loading → Playback s (fail_fetch s)
  settled : (s : Narration) (played : Bool) → s.phase ≡ starting → Playback s (settle_play played s)
  left : (s : Narration) → s.mounted ≡ true → Playback s (leave s)

pub data Narrated (s : Narration) : Narration → Type 0 where
  here : Narrated s s
  after : {t u : Narration} → Narrated s t → Playback t u → Narrated s u

abbrev pub held : Option ℕ → List ℕ
held none = []
held (some u) = u ∷ []

-- An audio came after the page was left.
abbrev pub IsLateStep : {s t : Narration} → Playback s t → Type 0
IsLateStep (came s l) = s.mounted ≡ false
IsLateStep _ = ⊥

abbrev pub IsLate : {s t : Narration} → Narrated s t → Type 0
IsLate here = ⊥
IsLate (after r st) = IsLate r ⊎ IsLateStep st

-- On the page, the URLs that stand are the one referred to. Off it there are none and nothing plays,
-- unless an audio came late (`L`), and then the one referred to stands.
abbrev pub IsTidy : Type 0 → Narration → Type 0
IsTidy L s =
    ((s.mounted ≡ true) × (s.live ≡ held s.url))
    ⊎ ((s.mounted ≡ false) × (((s.live ≡ []) × (s.playing ≡ false)) ⊎ (L × (s.live ≡ held s.url))))

revoke-held : (url : Option ℕ) → revoke url (held url) ≡ []
unfolding revoke
revoke-held none = refl
revoke-held (some u) = ground arith

revoke-nil : (url : Option ℕ) → revoke url [] ≡ []
unfolding revoke
revoke-nil none = refl
revoke-nil (some u) = refl

revoked : (url : Option ℕ) (live : List ℕ) → live ≡ held url → revoke url live ≡ []
revoked url live h = rw h (revoke-held url)

receive_blob-held :
    (s : Narration) → revoke s.url s.live ≡ [] → (receive_blob s).live ≡ held (receive_blob s).url
unfolding receive_blob
receive_blob-held s r = ap (λ us. s.fresh_url ∷ us) r

revoked_all : (L : Type 0) (s : Narration) → IsTidy L s → revoke s.url s.live ≡ []
revoked_all L s (inl (_, h)) = revoked s.url s.live h
revoked_all L s (inr (_, inl (n, _))) = ap (revoke s.url) n ∙ revoke-nil s.url
revoked_all L s (inr (_, inr (_, h))) = revoked s.url s.live h

receive_blob-IsTidy :
    (L : Type 0) (s : Narration) → IsTidy L s → IsTidy (L ⊎ (s.mounted ≡ false)) (receive_blob s)
unfolding receive_blob
receive_blob-IsTidy L s h = elim (Bool-cases s.mounted) [
  | inl m ↦ inl (m, receive_blob-held s (revoked_all L s h))
  | inr m ↦ inr (m, inr (inr m, receive_blob-held s (revoked_all L s h)))
]

leave-IsTidy : (L K : Type 0) (s : Narration) → IsTidy L s → IsTidy K (leave s)
unfolding leave
leave-IsTidy L K s h = inr (refl, inl (revoked_all L s h, refl))

settle_play-IsTidy :
    (L : Type 0) (s : Narration) (played : Bool) → IsTidy L s → IsTidy L (settle_play played s)
unfolding settle_play
settle_play-IsTidy L s true h = h
settle_play-IsTidy L s false (inl h) = inl h
settle_play-IsTidy L s false (inr (m, inl (n, p))) = inr (m, inl (n, refl))
settle_play-IsTidy L s false (inr (m, inr h)) = inr (m, inr h)

-- More lateness leaves a tidy state tidy.
IsTidy-inl : (L K : Type 0) (s : Narration) → IsTidy L s → IsTidy (L ⊎ K) s
IsTidy-inl L K s (inl h) = inl h
IsTidy-inl L K s (inr (m, inl h)) = inr (m, inl h)
IsTidy-inl L K s (inr (m, inr (l, h))) = inr (m, inr (inl l, h))

Playback-IsTidy :
    (L : Type 0) {s t : Narration} (st : Playback s t) → IsTidy L s → IsTidy (L ⊎ IsLateStep st) t
unfolding listen fail_fetch
Playback-IsTidy L (pressed s m r) h = IsTidy-inl L ⊥ (listen s) h
Playback-IsTidy L (came s l) h = receive_blob-IsTidy L s h
Playback-IsTidy L (failed s l) h = IsTidy-inl L ⊥ (fail_fetch s) h
Playback-IsTidy L (settled s played l) h =
    IsTidy-inl L ⊥ (settle_play played s) (settle_play-IsTidy L s played h)
Playback-IsTidy L (left s m) h = leave-IsTidy L (L ⊎ ⊥) s h

-- However the narration is used: on the page, the object URLs that stand are the one that is referred
-- to, or none; once the page is left, there are none and nothing plays, unless an audio came after
-- that, and then its URL is the only one that stands.
pub Narrated-IsTidy : (s : Narration) (r : Narrated silent s) → IsTidy (IsLate r) s
Narrated-IsTidy s here = inl (refl, refl)
Narrated-IsTidy s (after {t} r st) = Playback-IsTidy (IsLate r) st (Narrated-IsTidy t r)

-- Off the page with nothing to come, only the end of `audio.play()` is left.
abbrev Abandoned : List ℕ → Narration → Type 0
Abandoned urls s = (s.mounted ≡ false) × (s.phase ≢ loading) × (s.live ≡ urls)

settle_play-Abandoned :
    (urls : List ℕ) (s : Narration) (played : Bool)
    → Abandoned urls s
    → Abandoned urls (settle_play played s)
unfolding settle_play
settle_play-Abandoned urls s true (m, p, l) = (m, λ e. cc e, l)
settle_play-Abandoned urls s false (m, p, l) = (m, λ e. cc e, l)

Playback-Abandoned :
    (urls : List ℕ) {s t : Narration} → Playback s t → Abandoned urls s → Abandoned urls t
Playback-Abandoned urls (pressed s m r) (n, p, l) =
    absurd (let clash : true ≡ false = sym m ∙ n in cc clash)
Playback-Abandoned urls (came s q) (n, p, l) = absurd (p q)
Playback-Abandoned urls (failed s q) (n, p, l) = absurd (p q)
Playback-Abandoned urls (settled s played q) h = settle_play-Abandoned urls s played h
Playback-Abandoned urls (left s m) (n, p, l) =
    absurd (let clash : true ≡ false = sym m ∙ n in cc clash)

Narrated-Abandoned :
    (urls : List ℕ) {s t : Narration} → Abandoned urls s → Narrated s t → Abandoned urls t
Narrated-Abandoned urls h here = h
Narrated-Abandoned urls h (after r st) = Playback-Abandoned urls st (Narrated-Abandoned urls h r)

-- If the page is left while the audio is fetched, the audio plays when it comes, and whatever happens
-- then, its object URL is never revoked.
pub leave-late :
    (s t : Narration)
    → Narrated silent s
    → s.mounted ≡ true
    → s.phase ≡ loading
    → Narrated (receive_blob (leave s)) t
    → ((receive_blob (leave s)).playing ≡ true) × (t.live ≡ s.fresh_url ∷ [])
unfolding receive_blob leave
leave-late s t r m l more =
    let left_over = revoke s.url s.live in
    let none_left : left_over ≡ [] = revoked_all (IsLate r) s (Narrated-IsTidy s r) in
    let (_, _, stands) =
      Narrated-Abandoned (s.fresh_url ∷ [])
        (
          refl,
          λ e. cc e,
          ap (λ us. s.fresh_url ∷ us) (ap (revoke s.url) none_left ∙ revoke-nil s.url),
        )
        more in
    (refl, stands)
