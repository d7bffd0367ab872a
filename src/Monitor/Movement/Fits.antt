-- ===== src/Monitor/Movement/Fits.antt =====
-- The keys that a policy chooses to move fit into the storage that is free.
use anna.Prelude.{
  ℕ, ◌+◌, ◌%◌, ◌^◌, ◌≤◌, ◌<◌, ◌==◌, ◌≡◌, list_eq, nat_eq, ltb, Bool, true, false, List, [], ◌∷◌,
  arith, if◌then◌else◌, Bool-cases, inl, inr,
}
use anna.Containers.HashMap
use anna.Containers.HashMap.{HashMap}
use anna.Text.{Text}
use anna.Metadata.{KeyReplication, no_replication, is_metadata}
use anna.Run.{ok, Ensures, returns, Ensures-mono, Ensures-ok, Ensures-eq, Ensures-bind}
use anna.Monitor.{Monitor}
use anna.Monitor.Movement.{Chosen, none_chosen, choose, is_candidate, choose_keys}

-- The sizes of the keys of a map or a list, together.
abbrev pub total : {V : Type 0} → HashMap Text ℕ → List (Text × V) → ℕ
total sizes [] = 0
total sizes ((key, v) ∷ keys) = HashMap.at 0 key sizes + total sizes keys

total-assign :
    (sizes : HashMap Text ℕ) (key : Text) (rep : KeyReplication) (m : HashMap Text KeyReplication)
    → total sizes (HashMap.assign key rep m) ≤ total sizes m + HashMap.at 0 key sizes
unfolding HashMap.assign
total-assign sizes key rep [] = omega arith
total-assign sizes key rep ((j, r) ∷ m) = elim (Bool-cases (j == key)) [
  | inl same ↦ rw same (omega arith)
  | inr other ↦ rw other (omega (arith, total-assign sizes key rep m))
]

-- What is chosen is within the free storage, and within what was added up.
pub record IsWithin (sizes : HashMap Text ℕ) (free : ℕ) (c : Chosen) : Type 0 where
  pub free_left : total sizes c.requests ≤ free
  pub counted : total sizes c.requests ≤ c.required_storage

module _ {D : Type 0} (m : Monitor D) (free : ℕ) where
  abbrev size_of : Text → ℕ
  size_of key = HashMap.at 0 key m.key_size

  choose-IsWithin :
      (key : Text) (rep : KeyReplication) (c : Chosen)
      → c.required_storage + size_of key < 2 ^ 64
      → IsWithin m.key_size free c
      → IsWithin m.key_size free (choose free (size_of key) key rep c)
        × ((choose free (size_of key) key rep c).required_storage
            ≤ c.required_storage + size_of key)
  unfolding choose
  choose-IsWithin key rep c b w =
      rw (no_wrap (c.required_storage + size_of key) b)
        (elim (Bool-cases (ltb free (c.required_storage + size_of key))) [
          | inl over ↦
              rw over (
                record { free_left = w.free_left; counted = omega (arith, w.counted) },
                omega arith,
              )
          | inr fits ↦ rw fits (
            record {
              free_left = ground (arith, total-assign m.key_size key rep c.requests, w.counted);
              counted = omega (arith, total-assign m.key_size key rep c.requests, w.counted);
            },
            omega arith,
          )
        ])
    where
      no_wrap : (n : ℕ) → n < 2 ^ 64 → n % 2 ^ 64 ≡ n
      no_wrap n h = omega arith

  choose_if-IsWithin :
      (b : Bool) (key : Text) (rep : KeyReplication) (c : Chosen)
      → c.required_storage + size_of key < 2 ^ 64
      → IsWithin m.key_size free c
      → (let c' = if b then choose free (size_of key) key rep c else c in
          IsWithin m.key_size free c' × (c'.required_storage ≤ c.required_storage + size_of key))
  choose_if-IsWithin true key rep c b w = choose-IsWithin key rep c b w
  choose_if-IsWithin false key rep c b w = (w, omega arith)

  module _ (wanted : ℕ → KeyReplication → Bool) (change : KeyReplication → KeyReplication) where
    choose_keys-IsWithin :
        (summary : List (Text × ℕ)) (c : Chosen)
        → c.required_storage + total m.key_size summary < 2 ^ 64
        → IsWithin m.key_size free c
        → Ensures (IsWithin m.key_size free) (choose_keys m free wanted change summary c)
    unfolding choose_keys
    choose_keys-IsWithin [] c b w = returns w
    choose_keys-IsWithin ((key, access_count) ∷ summary) c b w =
        Ensures-bind (λ _. Unit) (is_metadata key) _ (Ensures-eq _ (λ _ _. tt))
          (λ metadata _.
            let rep = HashMap.at no_replication key m.key_replication_map in
            let (v, h) =
              choose_if-IsWithin (is_candidate metadata (wanted access_count rep) key m.key_size)
                key (change rep) c (omega arith) w in
            choose_keys-IsWithin summary _ (omega (arith, h)) v)

    -- The keys that a loop of the movement policy chooses have, together, at most the size of the free
    -- storage, whatever its test and the new factors; where the sizes of all keys that were looked at
    -- stay below 2 ^ 64.
    pub choose_keys-fits :
        (summary : List (Text × ℕ)) (c : Chosen)
        → total m.key_size summary < 2 ^ 64
        → choose_keys m free wanted change summary none_chosen ≡ ok c
        → total m.key_size c.requests ≤ free
    choose_keys-fits summary c b = Ensures-ok {P = λ c. total m.key_size c.requests ≤ free} _ (
        Ensures-mono _ (λ c w. w.free_left)
          (choose_keys-IsWithin summary none_chosen (omega arith)
            (record { free_left = omega arith; counted = omega arith })))
