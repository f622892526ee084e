-- ===== src/Json.antt =====
-- Parsed JSON, as the front end's server and client handle it (TypeScript's `unknown` after
-- `JSON.parse`). A number is an exact decimal, `mantissa * 10 ^ -scale`, which every finite double
-- is. The entries of an object stand in the order of `Object.entries`; no key is repeated there.
use fintech_innova_hack.Prelude.{ℕ, suc, zero, Bool, Option, none, some, if◌then◌else◌}
use fintech_innova_hack.Prelude.Text.{Text, text_eq}

pub record Number : Type 0 where
  pub negative : Bool
  pub mantissa : ℕ
  pub scale : ℕ

mutual
  pub data Json : Type 0 where
    null : Json
    bool : Bool → Json
    num : Number → Json
    str : Text → Json
    arr : Elems → Json
    obj : Entries → Json

  pub data Elems : Type 0 where
    nil : Elems
    cons : Json → Elems → Elems

  pub data Entries : Type 0 where
    end : Entries
    entry : Text → Json → Entries → Entries

abbrev pub nth : Elems → ℕ → Option Json
nth nil n = none
nth (cons v vs) zero = some v
nth (cons v vs) (suc n) = nth vs n

-- `object[key]`, with `none` for `undefined`
abbrev pub prop : Entries → Text → Option Json
prop end k = none
prop (entry j v es) k = if text_eq j k then some v else prop es k
