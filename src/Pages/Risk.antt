-- ===== src/Pages/Risk.antt =====
-- frontend/app/(product)/risk/page.tsx: where the link of a risk event leads, and the colour of its
-- severity.
use fintech_innova_hack.Prelude.{
  ◌≡◌, refl, ◌≢◌, ◌⊎◌, inl, inr, ◌||◌, Option, none, some, List, [], ◌∷◌, ◌++◌, if◌then◌else◌,
  Bool-cases,
}
use fintech_innova_hack.Prelude.Text.{Text, codes, text_eq}
use fintech_innova_hack.Navigation.{active_href}
use fintech_innova_hack.Pages.Status.{BadgeTone, critical, caution, neutral, entry_at}

severity_tones : List (Text × BadgeTone)
severity_tones =
    (codes "CRITICAL", critical)
    ∷ (codes "HIGH", critical)
    ∷ (codes "WARN", caution)
    ∷ (codes "MEDIUM", caution)
    ∷ (codes "LOW", neutral)
    ∷ (codes "INFO", neutral)
    ∷ []

tone_else : Option BadgeTone → BadgeTone
tone_else none = neutral
tone_else (some t) = t

unfoldable pub severity_tone : Text → BadgeTone
unfolding severity_tones entry_at tone_else
severity_tone severity = tone_else (entry_at severity_tones severity)

-- The page for a kind of subject.
subject_page : Text → Option Text
unfolding text_eq
subject_page kind =
    if text_eq kind (codes "AGENT")
    then some (codes "/agents")
    else if text_eq kind (codes "VAULT")
    then some (codes "/vaults")
    else if text_eq kind (codes "TRANSACTION") || text_eq kind (codes "PROPOSAL")
    then some (codes "/transactions")
    else none

below : Option Text → Text → Option Text
below none id = none
below (some page) id = some (page ++ b'/' ∷ id)

-- `href`, where there is an identifier; an absent type or identifier is `none`.
unfoldable pub subject_href : (subject_type subject_id : Option Text) → Option Text
unfolding subject_page below
subject_href kind none = none
subject_href kind (some []) = none
subject_href none (some (c ∷ id)) = none
subject_href (some kind) (some (c ∷ id)) = below (subject_page kind) (c ∷ id)

subject_page_cases :
    (kind : Text)
    → (subject_page kind ≡ none)
      ⊎ (subject_page kind ≡ some (codes "/agents"))
      ⊎ (subject_page kind ≡ some (codes "/vaults"))
      ⊎ (subject_page kind ≡ some (codes "/transactions"))
unfolding subject_page
subject_page_cases kind = elim (Bool-cases (text_eq kind (codes "AGENT"))) [
  | inl a ↦ inr (inl (rw a refl))
  | inr a ↦ elim (Bool-cases (text_eq kind (codes "VAULT"))) [
    | inl v ↦ inr (inr (inl (rw (a, v) refl)))
    | inr v ↦
        elim (Bool-cases (text_eq kind (codes "TRANSACTION") || text_eq kind (codes "PROPOSAL"))) [
          | inl t ↦ inr (inr (inr (rw (a, v, t) refl)))
          | inr t ↦ inl (rw (a, v, t) refl)
        ]
  ]
]

agent_active : (id : Text) → active_href (codes "/agents" ++ b'/' ∷ id) ≡ some (codes "/agents")
unfolding active_href
agent_active id = refl

vault_active : (id : Text) → active_href (codes "/vaults" ++ b'/' ∷ id) ≡ some (codes "/vaults")
unfolding active_href
vault_active id = refl

transaction_active :
    (id : Text) → active_href (codes "/transactions" ++ b'/' ∷ id) ≡ some (codes "/transactions")
unfolding active_href
transaction_active id = refl

-- The page is one of three of the navigation.
abbrev pub IsSubjectPage : Text → Type 0
IsSubjectPage page =
    (page ≡ codes "/agents") ⊎ (page ≡ codes "/vaults") ⊎ (page ≡ codes "/transactions")

below-active :
    (o : Option Text) (id href : Text)
    → (o ≡ none)
      ⊎ (o ≡ some (codes "/agents"))
      ⊎ (o ≡ some (codes "/vaults"))
      ⊎ (o ≡ some (codes "/transactions"))
    → below o id ≡ some href
    → (page : Text) × IsSubjectPage page
      × (href ≡ page ++ b'/' ∷ id)
      × (active_href href ≡ some page)
unfolding below
below-active none id href c e = absurd (cc e)
below-active (some p) id href (inl n) e = absurd (cc n)
below-active (some p) id href (inr (inl q)) e =
    let h : href ≡ codes "/agents" ++ b'/' ∷ id = cc (q, e) in
    (codes "/agents", inl refl, h, rw h (agent_active id))
below-active (some p) id href (inr (inr (inl q))) e =
    let h : href ≡ codes "/vaults" ++ b'/' ∷ id = cc (q, e) in
    (codes "/vaults", inr (inl refl), h, rw h (vault_active id))
below-active (some p) id href (inr (inr (inr q))) e =
    let h : href ≡ codes "/transactions" ++ b'/' ∷ id = cc (q, e) in
    (codes "/transactions", inr (inr refl), h, rw h (transaction_active id))

-- A link of a risk event has a kind and an identifier that is not empty; it is the address of that
-- record below the page of the agents, the vaults or the transactions, and that page is the one that
-- the navigation marks there.
pub subject_href-active :
    (kind id : Option Text) (href : Text)
    → subject_href kind id ≡ some href
    → (k : Text) × (i : Text) × (page : Text) × (kind ≡ some k)
      × (id ≡ some i)
      × (i ≢ [])
      × IsSubjectPage page
      × (href ≡ page ++ b'/' ∷ i)
      × (active_href href ≡ some page)
unfolding subject_href
subject_href-active kind none href e = absurd (cc e)
subject_href-active kind (some []) href e = absurd (cc e)
subject_href-active none (some (c ∷ id)) href e = absurd (cc e)
subject_href-active (some kind) (some (c ∷ id)) href e =
    let (page, is, at_, active) =
      below-active (subject_page kind) (c ∷ id) href (subject_page_cases kind) e in
    (kind, c ∷ id, page, refl, refl, λ q. cc q, is, at_, active)
