-- ===== src/Threads/Identity.antt =====
-- Threads are told apart by their ids, and addresses by their threads.
use anna.Prelude.{
  ℕ, ◌≡◌, refl, ◌↔◌, true, ==_refl, ==_iff, nat_eq, list_eq, [], ◌∷◌, ◌++◌, arith, All,
}
use anna.Text.{Text, to_string}
use anna.Text.Decimal.{IsDigit, to_string-IsDigit, to_string-injective}
use anna.Text.Split.{Without}
use anna.Threads.{ServerThread, id, same_thread}

digits-Without : (s : Text) → All IsDigit s → Without 58 s
digits-Without [] h = tt
digits-Without (c ∷ s) h = (ground arith, digits-Without s h.1)

not-Without : (d : ℕ) (xs ys : Text) → ¬ (Without d (xs ++ d ∷ ys))
not-Without d [] ys h = cc (==_refl d, h.0)
not-Without d (x ∷ xs) ys h = not-Without d xs ys h.1

-- A text is cut in one way only at the last place of a byte.
last_cut :
    (d : ℕ) (xs ys ds es : Text)
    → Without d ds
    → Without d es
    → xs ++ d ∷ ds ≡ ys ++ d ∷ es
    → (xs ≡ ys) × (ds ≡ es)
last_cut d [] [] ds es h k e = (refl, cc)
last_cut d [] (y ∷ ys) ds es h k e =
    let same : ds ≡ ys ++ d ∷ es = cc in absurd (not-Without d ys es (rw same at h))
last_cut d (x ∷ xs) [] ds es h k e =
    let same : es ≡ xs ++ d ∷ ds = cc in absurd (not-Without d xs ds (rw same at k))
last_cut d (x ∷ xs) (y ∷ ys) ds es h k e =
    let rest = last_cut d xs ys ds es h k (cc) in (cc (rest.0), rest.1)

number-Without : (n : ℕ) → Without 58 (to_string n)
number-Without n = digits-Without (to_string n) (to_string-IsDigit n)

-- Two server threads are equal exactly when they have one private address and one number.
pub same_thread_iff :
    (l r : ServerThread)
    → (same_thread l r ≡ true) ↔ ((l.private_ip ≡ r.private_ip) × (l.tid ≡ r.tid))
unfolding same_thread id
same_thread_iff l r = (
  λ h.
      let (ips, numbers) =
        last_cut 58 l.private_ip r.private_ip (to_string l.tid) (to_string r.tid)
          (number-Without l.tid) (number-Without r.tid) ((==_iff (id l) (id r)).0 h) in
      (ips, to_string-injective l.tid r.tid numbers),
  λ h. (==_iff (id l) (id r)).1 (cc (h.0, h.1)),
)
