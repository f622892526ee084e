-- ===== src/Orb/Prompt/Selection.antt =====
-- Which facts the prompt for a question holds.
use fintech_innova_hack.Prelude.{Bool, List}
use fintech_innova_hack.Prelude.Text.{Text, text_eq}
use fintech_innova_hack.Orb.Facts.{Fact, sandbox}

is_sandbox : Fact → Bool
unfolding text_eq
is_sandbox f = text_eq f.topic sandbox.topic
