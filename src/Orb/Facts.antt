-- ===== src/Orb/Facts.antt =====
-- frontend/lib/orb-knowledge.ts: the facts that the page assistant may state.
use fintech_innova_hack.Prelude.{Option, none, some, List, [], ◌∷◌, ◌++◌, find}
use fintech_innova_hack.Prelude.Text.{Text, codes, text_eq}

pub record Fact : Type 0 where
  pub topic : Text
  pub text : Text

abbrev pub what_it_is : Fact
what_it_is = record {
  topic = codes "what it is";
  text =
      codes "CredenceAI gives verified autonomous agents task-specific working capital through "
      ++ codes "restricted credit vaults, with repayment taken automatically from the revenue the "
      ++ codes "task earns.";
}

abbrev pub sandbox : Fact
sandbox = record {
  topic = codes "sandbox";
  text =
      codes "This is a hackathon sandbox. Balances and limits are test credits, nothing is "
      ++ codes "redeemable, no payment rail exists behind the vault, and a settled transaction is "
      ++ codes "a ledger entry rather than a transfer. CredenceAI is not a licensed lender and "
      ++ codes "nothing here is an offer of credit or financial advice.";
}

abbrev pub passport : Fact
passport = record {
  topic = codes "passport";
  text =
      codes "An agent passport is the agent's verified identity. It is signed, and a spend is "
      ++ codes "refused if the identity is invalid or its authorisation window has expired.";
}

abbrev pub vault : Fact
vault = record {
  topic = codes "vault";
  text =
      codes "A vault is restricted credit scoped to one task. It carries a total limit, a "
      ++ codes "per-transaction limit, and an allow-list of vendors the agent may pay. A spend "
      ++ codes "outside any of those is denied.";
}

abbrev pub policy : Fact
policy = record {
  topic = codes "policy";
  text =
      codes "Every spend attempt is authorised against a versioned Rego rule set "
      ++ codes "(credence.credit/v1) before it can settle. The evaluator that runs is an "
      ++ codes "in-process mirror of that bundle sharing OPA's input-document shape, and the "
      ++ codes "decision it records reports engine=\"local\". Missing or malformed policy input "
      ++ codes "denies the spend — there is no permissive default.";
}

abbrev pub repayment : Fact
repayment = record {
  topic = codes "repayment";
  text =
      codes "Revenue from the task is applied in a fixed order: outstanding principal first, "
      ++ codes "then the fee, then replenishing any reserve that was drawn, and whatever survives "
      ++ codes "goes to the owner. The arithmetic is in integer minor units, so nothing is lost "
      ++ codes "to rounding.";
}

abbrev pub ai_role : Fact
ai_role = record {
  topic = codes "ai role";
  text =
      codes "The models are advisory only. They read evidence and raise flags; they never "
      ++ codes "decide an amount. Every figure comes from the deterministic engine, and a model "
      ++ codes "failure never produces an automatic approval — it produces a human review.";
}

abbrev pub model : Fact
model = record {
  topic = codes "model";
  text =
      codes "The deployed analyst model is mistral-small3.2:24b-instruct-2506-q4_K_M, served "
      ++ codes "on a single NVIDIA L4 that scales to zero when idle. This chat assistant is a "
      ++ codes "separate, much smaller model and has no access to any account, vault, or ledger "
      ++ codes "data.";
}

abbrev pub audit : Fact
audit = record {
  topic = codes "audit";
  text =
      codes "Actions are written to an append-only audit chain, so a decision can be traced "
      ++ codes "back to the rules and evidence that produced it.";
}

abbrev pub limits : Fact
limits = record {
  topic = codes "limits";
  text =
      codes "The system is honest about what it has not shown. Two of its accuracy metrics "
      ++ codes "rest on only three cases each, and it reports a metric as unavailable rather than "
      ++ codes "as zero when it could not be evaluated.";
}

abbrev pub facts : List Fact
facts =
    what_it_is ∷ sandbox ∷ passport ∷ vault ∷ policy ∷ repayment ∷ ai_role ∷ model ∷ audit ∷ limits
    ∷ []

-- The text of a fact, and without the fact nothing.
text_of : Option Fact → Text
text_of none = []
text_of (some f) = f.text

-- `FACTS.find((f) => f.topic === name)!.text`, for a topic of a fact.
unfoldable pub topic : Text → Text
unfolding text_of text_eq
topic name = text_of (find (λ f. text_eq f.topic name) facts)
