-- ===== src/Tests/Version.antt =====
-- Runs of the comparison of version texts.
use yubikey_personalization.Prelude.{
  ℕ, ◌≡◌, inl, inr, refl, some, none, List, [], ◌∷◌, arith, codes,
}
use yubikey_personalization.Version.{below, above, my_strverscmp, ykpers_check_version}
use yubikey_personalization.Version.Laws.{ykpers_check_version-my_strverscmp, version_text}
use yubikey_personalization.Version.Value.{IsNumeral}

-- 1.9.0 and 1.20.1.
two_lengths : my_strverscmp (codes "1.9.0") (codes "1.20.1") ≡ some below
unfolding my_strverscmp codes
two_lengths = refl

-- A number with a zero in front stands before the others.
zero_in_front : my_strverscmp (codes "1.05") (codes "1.5") ≡ some below
unfolding my_strverscmp codes
zero_in_front = refl

newer_asked : ykpers_check_version (codes "1.20.0") (some (codes "1.20.0.1")) ≡ none
unfolding ykpers_check_version codes
newer_asked = refl

abbrev asked : List (List ℕ)
asked = (50 ∷ 48 ∷ []) ∷ (48 ∷ []) ∷ []

abbrev built : List (List ℕ)
built = (57 ∷ []) ∷ []

one : IsNumeral (49 ∷ [])
one = ((refl, tt), inl (λ e. absurd (omega (arith, e))))

twenty : IsNumeral (50 ∷ 48 ∷ [])
twenty = ((refl, (refl, tt)), inl (λ e. absurd (omega (arith, e))))

naught : IsNumeral (48 ∷ [])
naught = ((refl, tt), inr (refl, refl))

nine : IsNumeral (57 ∷ [])
nine = ((refl, tt), inl (λ e. absurd (omega (arith, e))))

ykpers_check_version-my_strverscmp_example :
    (my_strverscmp (version_text (49 ∷ []) asked) (version_text (49 ∷ []) built) ≡ some above)
    × (ykpers_check_version (version_text (49 ∷ []) built) (some (version_text (49 ∷ []) asked))
        ≡ none)
ykpers_check_version-my_strverscmp_example =
    ykpers_check_version-my_strverscmp (49 ∷ []) (49 ∷ []) asked built (one, (twenty, (naught, tt)))
      (one, (nine, tt))
