-- ===== src/Forms/Drafts.antt =====
-- frontend/components/onboarding/new-application.tsx: the evidence entries of the form, and how they
-- are edited. A draft's key is its number; `seq` is `evidenceKeySeq`.
pub mod Laws
mod Examples
use fintech_innova_hack.Prelude.{
  ℕ, suc, Bool, true, false, not, ◌&&◌, ◌||◌, Option, none, some, List, [], ◌∷◌, ◌++◌, map, any,
  keep, ltb, ◌==◌, if◌then◌else◌, length,
}
use fintech_innova_hack.Prelude.Text.{Text, codes, text_eq, trim}
use fintech_innova_hack.Onboarding.Vocabulary.{evidence_templates, template_of}
use fintech_innova_hack.Forms.Checks.{is_nil}

pub record Draft : Type 0 where
  pub key : ℕ
  pub evidence_type : Text
  pub content_text : Text

pub record Drafts : Type 0 where
  pub seq : ℕ
  pub drafts : List Draft

text_or_empty : Option Text → Text
text_or_empty none = []
text_or_empty (some t) = t

-- `EVIDENCE_TEMPLATES[type] ?? ""`
unfoldable pub template_text : Text → Text
unfolding text_or_empty template_of evidence_templates
template_text kind = text_or_empty (template_of kind evidence_templates)

unfoldable pub new_draft : ℕ → Text → Draft
unfolding template_text
new_draft seq kind = record {
  key = suc seq;
  evidence_type = kind;
  content_text = template_text kind;
}

-- The form as it is first drawn.
unfoldable pub first_drafts : ℕ → Drafts
unfolding new_draft
first_drafts seq = record { seq = suc seq; drafts = new_draft seq (codes "TASK_ORDER") ∷ [] }

is_template : Option Text → Text → Bool
is_template none text = false
is_template (some t) text = text_eq text t

-- The text is the person's own: not blank, and not the template of the draft's type.
unfoldable pub is_edited : Draft → Bool
unfolding is_template text_eq trim template_of evidence_templates
is_edited d = not (
    is_nil (trim d.content_text)
    || is_template (template_of d.evidence_type evidence_templates) d.content_text)

unfoldable pub retype : Text → Draft → Draft
unfolding is_edited template_text
retype kind d = record d {
  evidence_type = kind;
  content_text = if is_edited d then d.content_text else template_text kind;
}

-- What a person does to the entries. Each time the form is drawn again, the draft that its state would
-- begin with is made again, and dropped.
pub data Edit : Type 0 where
  redraw : Edit
  add : Edit
  choose_type : ℕ → Text → Edit
  type_text : ℕ → Text → Edit
  remove : ℕ → Edit

-- Only the draft under this key is changed.
at_key : ℕ → (Draft → Draft) → Draft → Draft
at_key key f d = if d.key == key then f d else d

-- The button that removes is there only if more than one entry is.
unfoldable pub edit : Edit → Drafts → Drafts
unfolding new_draft retype at_key
edit redraw s = record s { seq = (new_draft s.seq (codes "TASK_ORDER")).key }
edit add s = record {
  seq = suc s.seq;
  drafts = s.drafts ++ new_draft s.seq (codes "PRIOR_TASK_OUTCOME") ∷ [];
}
edit (choose_type key kind) s = record s { drafts = map (at_key key (retype kind)) s.drafts }
edit (type_text key text) s = record s {
  drafts = map (at_key key (λ d. record d { content_text = text })) s.drafts;
}
edit (remove key) s =
    if ltb 1 (length s.drafts)
    then record s { drafts = keep (λ d. not (d.key == key)) s.drafts }
    else s

unfoldable pub edit_all : List Edit → Drafts → Drafts
unfolding edit
edit_all [] s = s
edit_all (e ∷ es) s = edit_all es (edit e s)

-- A chip that is clicked.
unfoldable pub toggle : Text → List Text → List Text
unfolding text_eq
toggle value selected =
    if any (text_eq value) selected
    then keep (λ v. not (text_eq v value)) selected
    else selected ++ value ∷ []
