-- ===== src/Forms/Drafts/Examples.antt =====
-- A form whose entries are edited.
use fintech_innova_hack.Prelude.{◌≡◌, refl, List, [], ◌∷◌, map}
use fintech_innova_hack.Prelude.Text.{codes}
use fintech_innova_hack.Forms.Drafts.{
  Edit, redraw, add, choose_type, type_text, remove, edit_all, first_drafts, toggle,
}

abbrev edits : List Edit
edits =
    add
    ∷ redraw
    ∷ type_text 5 (codes "Delivered on time.")
    ∷ choose_type 5 (codes "TASK_ORDER")
    ∷ remove 4
    ∷ remove 5
    ∷ []

-- The last entry stays, with the text that was typed.
edited :
    map (λ d. d.content_text) (edit_all edits (first_drafts 3)).drafts
    ≡ codes "Delivered on time." ∷ []
unfolding edit_all first_drafts
edited = refl

toggled : toggle (codes "a") (codes "b" ∷ codes "a" ∷ []) ≡ codes "b" ∷ []
unfolding toggle
toggled = refl
