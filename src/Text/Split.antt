-- ===== src/Text/Split.antt =====
-- `split` takes apart what was put together with the delimiter.
use anna.Prelude.{
  ℕ, ◌≡◌, refl, ◌∙◌, false, ◌==◌, ==_refl, nat_eq, [], ◌∷◌, ◌++◌, if◌then◌else◌, All,
}
use mathlib.Core.List.{append_assoc, append-nil}
use anna.Text.{Text, split_from, split}

-- The delimiter does not stand in the text.
abbrev pub Without : ℕ → Text → Type 0
Without delim = All (λ c. (c == delim) ≡ false)

split_from_cons :
    (item : Text) (c : ℕ) (cs : Text) (delim : ℕ)
    → split_from item (c ∷ cs) delim
      ≡ (if c == delim then item ∷ split_from [] cs delim else split_from (item ++ c ∷ []) cs delim)
unfolding split_from
split_from_cons [] c cs delim = refl
split_from_cons (d ∷ item) c cs delim = refl

split_from-end :
    (item cs rest : Text) (delim : ℕ)
    → Without delim cs
    → split_from item (cs ++ delim ∷ rest) delim ≡ (item ++ cs) ∷ split_from [] rest delim
split_from-end item [] rest delim h =
    split_from_cons item delim rest delim ∙ rw (==_refl delim, append-nil)
split_from-end item (c ∷ cs) rest delim h =
    split_from_cons item c (cs ++ delim ∷ rest) delim
    ∙ rw h.0
        (split_from-end (item ++ c ∷ []) cs rest delim h.1 ∙ rw (append_assoc item (c ∷ []) cs))

split_from-last :
    (item cs : Text) (delim d : ℕ)
    → Without delim cs
    → split_from (d ∷ item) cs delim ≡ (d ∷ item ++ cs) ∷ []
unfolding split_from
split_from-last item [] delim d h = rw append-nil
split_from-last item (c ∷ cs) delim d h =
    split_from_cons (d ∷ item) c cs delim
    ∙ rw h.0 (split_from-last (item ++ c ∷ []) cs delim d h.1 ∙ rw (append_assoc item (c ∷ []) cs))

-- A field in front of a delimiter is the first item.
pub split-end :
    (cs rest : Text) (delim : ℕ)
    → Without delim cs
    → split (cs ++ delim ∷ rest) delim ≡ cs ∷ split rest delim
unfolding split
split-end cs rest delim h = split_from-end [] cs rest delim h

-- A last field that is not empty is the last item.
pub split-last :
    (c : ℕ) (cs : Text) (delim : ℕ) → Without delim (c ∷ cs) → split (c ∷ cs) delim ≡ (c ∷ cs) ∷ []
unfolding split
split-last c cs delim h = split_from_cons [] c cs delim ∙ rw h.0 (split_from-last [] cs delim c h.1)
