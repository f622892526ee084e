-- ===== src/Pages/Vault.antt =====
-- frontend/app/(product)/vaults/[vaultId]/page.tsx: which actions the page of a vault offers, and what
-- the sheet for a freeze sends.
use fintech_innova_hack.Prelude.{
  ◌≡◌, refl, Bool, false, not, ◌&&◌, ◌||◌, Option, none, some, List, [], ◌∷◌, leb, length,
  if◌then◌else◌,
}
use fintech_innova_hack.Prelude.Text.{Text, codes, trim}
use fintech_innova_hack.Prelude.Text.Laws.{unless}
use fintech_innova_hack.Server.Http.{Call}
use fintech_innova_hack.Client.{Answer, value, failure}
use fintech_innova_hack.Client.Records.{freeze_body, freeze_vault, operation_call}
use fintech_innova_hack.Pages.Lists.{has}

abbrev freezable : List Text
freezable = codes "CREATED" ∷ codes "ACTIVE" ∷ codes "SPENDING" ∷ []

abbrev closable : List Text
closable = codes "REPAID" ∷ codes "PARTIALLY_REPAID" ∷ codes "DEFAULTED" ∷ []

unfoldable pub can_freeze : Text → Bool
unfolding has
can_freeze status = has freezable status

unfoldable pub can_close : Text → Bool
unfolding has
can_close status = has closable status

-- The sheet for a freeze; `failed` is the sentence that stands below its field.
pub record FreezeSheet : Type 0 where
  pub is_open : Bool
  pub reason : Text
  pub pending : Bool
  pub failed : Option Text

unfoldable pub is_valid_reason : Text → Bool
unfolding trim
is_valid_reason reason = leb 3 (length (trim reason))

-- The call of the button, if it is enabled and the identifier can be encoded.
unfoldable pub freeze_call : Text → FreezeSheet → Option Call
unfolding is_valid_reason trim
freeze_call id s =
    if not (is_valid_reason s.reason) || s.pending
    then none
    else operation_call freeze_vault id (some (freeze_body (trim s.reason)))

unfoldable pub frozen_by : Answer → FreezeSheet → FreezeSheet
frozen_by (value v) s = record { is_open = false; reason = []; pending = false; failed = none }
frozen_by (failure e) s = record s { pending = false; failed = some e.detail }

-- No vault can be frozen and closed, and one that is frozen can be neither.
pub can_freeze-can_close :
    (status : Text)
    → ((can_freeze status && can_close status) ≡ false)
      × ((can_freeze (codes "FROZEN") || can_close (codes "FROZEN")) ≡ false)
unfolding can_freeze can_close
can_freeze-can_close s =
    let P = λ (t : Text). (can_freeze t && can_close t) ≡ false in
    (
      unless P s (codes "CREATED") refl λ c.
          unless P s (codes "ACTIVE") refl
            λ a. unless P s (codes "SPENDING") refl λ d. rw (c, a, d) refl,
      refl,
    )
