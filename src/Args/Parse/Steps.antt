-- ===== src/Args/Parse/Steps.antt =====
-- What holds of the variables whenever a step of `args_to_config` goes on.
use mathlib.Core.Path.{subst}
use yubikey_personalization.Prelude.{
  ℕ, ◌≡◌, refl, ap, arith, Bool, true, false, List, if◌then◌else◌,
}
use yubikey_personalization.Args.{Decoded, bad_length, bad_text, decoded}
use yubikey_personalization.Args.State.{Run, Outcome, proceed, stop, usage_error}

pub data Allows (P : Run → Type 0) : Outcome → Type 0 where
  goes : {q : Run} → P q → Allows P (proceed q)
  ends : {q : Run} → Allows P (stop q)

module _ (P : Run → Type 0) where
  -- An early return.
  pub guard :
      (b : Bool) (r : Run) {o : Outcome}
      → (b ≡ false → Allows P o)
      → Allows P (if b then usage_error r else o)
  guard true r next = ends
  guard false r next = next refl

  pub branch :
      (b : Bool) {o p : Outcome}
      → (b ≡ true → Allows P o)
      → (b ≡ false → Allows P p)
      → Allows P (if b then o else p)
  branch true then1 then2 = then1 refl
  branch false then1 then2 = then2 refl

  pub of_proceed : (o : Outcome) (q : Run) → Allows P o → o ≡ proceed q → P q
  of_proceed (proceed p) q (goes holds) e =
      subst P (ap (λ o. elim o [ proceed r ↦ r | stop r ↦ r ]) e) holds
  of_proceed (stop p) q ends e = ground arith

  -- One outcome after another.
  pub chain :
      (Q : Run → Type 0) (o : Outcome) (next : Run → Outcome)
      → Allows Q o
      → ((q : Run) → Q q → Allows P (next q))
      → Allows P (elim o [ proceed q ↦ next q | stop q ↦ stop q ])
  chain Q (proceed q) next (goes holds) then' = then' q holds
  chain Q (stop q) next ends then' = ends

  pub decode :
      (d : Decoded) (r s : Run) (next : List ℕ → Outcome)
      → ((bytes : List ℕ) → Allows P (next bytes))
      → Allows P (elim d [
        | bad_length ↦ usage_error r
        | bad_text ↦ usage_error s
        | decoded bytes ↦ next bytes
      ])
  decode bad_length r s next then' = ends
  decode bad_text r s next then' = ends
  decode (decoded bytes) r s next then' = then' bytes
