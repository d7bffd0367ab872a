-- ===== src/Monitor/Replication/Atomic.antt =====
-- A change of replication factors is made as a whole, or taken back.
use anna.Prelude.{
  ℕ, ◌==◌, ==_iff, ap, ◌≡◌, refl, ◌∙◌, list_eq, nat_eq, Bool, true, false, Option, some, List, [],
  ◌∷◌, inl, inr, if◌then◌else◌, Bool-cases,
}
use anna.Containers.HashMap
use anna.Containers.HashMap.{HashMap}
use anna.Containers.HashSet
use anna.Text.{Text}
use anna.Metadata.{KeyReplication, no_replication}
use anna.Run.{
  Run, ok, Ensures, returns, Ensures-if, Ensures-mono, Ensures-ok, Ensures-eq, Ensures-bind,
}
use anna.Ring.Responsible.{GlobalRingMap}
use anna.Monitor.{Monitor, MonitorConfig}
use anna.Monitor.Replication.{
  Peers, Changing, same_replication, put_factor, store_factor, store_factors, make_requests,
  tell_changes, restore, originals, change_replication_factor,
}
use anna.Monitor.Replication.Failed.{fails, contains-make_requests}

abbrev pub factor : Text → HashMap Text KeyReplication → KeyReplication
factor k m = HashMap.at no_replication k m

factor-assign :
    (key k : Text) (rep : KeyReplication) (m : HashMap Text KeyReplication)
    → factor k (HashMap.assign key rep m) ≡ (if key == k then rep else factor k m)
factor-assign key k rep m = elim (Bool-cases (key == k)) [
  | inl same ↦ rw (HashMap.find-assign key k rep m, same) refl
  | inr other ↦ rw (HashMap.find-assign key k rep m, other) refl
]

-- A factor that is written back.
factor-rewrite :
    (key k : Text) (m : HashMap Text KeyReplication)
    → factor k (HashMap.assign key (factor key m) m) ≡ factor k m
factor-rewrite key k m = elim (Bool-cases (key == k)) [
  | inl same ↦ factor-assign key k (factor key m) m ∙ rw (same, (==_iff key k).0 same) refl
  | inr other ↦ factor-assign key k (factor key m) m ∙ rw other refl
]

factor-restore :
    (k : Text) (failed : List Text) (orig m : HashMap Text KeyReplication)
    → factor k (restore orig failed m)
      ≡ (if HashSet.contains k failed then factor k orig else factor k m)
unfolding restore HashSet.contains
factor-restore k [] orig m = refl
factor-restore k (key ∷ failed) orig m =
    factor-restore k failed orig (HashMap.assign key (factor key orig) m)
    ∙ elim (Bool-cases (key == k)) [
      | inl same ↦
          rw (factor-assign key k (factor key orig) m, same, (==_iff key k).0 same)
            (either (HashSet.contains k failed) (factor k orig))
      | inr other ↦ rw (factor-assign key k (factor key orig) m, other) refl
    ]
  where
    either : (b : Bool) (r : KeyReplication) → (if b then r else r) ≡ r
    either true r = refl
    either false r = refl

factor-originals :
    (k : Text) (new : KeyReplication) (requests m : HashMap Text KeyReplication)
    → HashMap.find k requests ≡ some new
    → factor k (originals requests m) ≡ factor k m
unfolding originals HashMap.find
factor-originals k new [] m h = cc
factor-originals k new ((key, rep) ∷ more) m h =
    factor-assign key k (factor key m) (originals more m) ∙ elim (Bool-cases (key == k)) [
      | inl same ↦ rw (same, (==_iff key k).0 same) refl
      | inr other ↦ rw other (factor-originals k new more m (rw other at h))
    ]

-- What a request makes of the factors of a key: nothing, if they are equal for `operator==`.
abbrev pub chosen : KeyReplication → KeyReplication → KeyReplication
chosen new old = if same_replication new old then old else new

module _ (config : MonitorConfig) (peers : Peers) (local_hash_rings rings : GlobalRingMap) where
  store_factor_lem :
      (k key : Text) (rep : KeyReplication) (c : Changing)
      → Ensures
          (λ c'.
            factor k c'.factors
            ≡ (if key == k then chosen rep (factor k c.factors) else factor k c.factors))
          (store_factor config peers local_hash_rings rings key rep c)
  unfolding store_factor
  store_factor_lem k key rep c =
      Ensures-if (same_replication rep (factor key c.factors)) _ _
        (λ same. returns (
          factor-rewrite key k c.factors ∙ elim (Bool-cases (key == k)) [
            | inl here ↦
                let e : same_replication rep (factor k c.factors) ≡ true =
                  rw (← (==_iff key k).0 here) same in
                rw (here, e) refl
            | inr other ↦ rw other refl
          ]))
        (λ differ.
          Ensures-bind (λ _. Unit)
            (put_factor config peers local_hash_rings rings key rep c.requests) _
            (Ensures-eq _ (λ _ _. tt))
            (λ requests _. returns (
              factor-assign key k rep c.factors ∙ elim (Bool-cases (key == k)) [
                | inl here ↦
                    let e : same_replication rep (factor k c.factors) ≡ false =
                      rw (← (==_iff key k).0 here) differ in
                    rw (here, e) refl
                | inr other ↦ rw other refl
              ])))

  -- A key that is not asked for keeps its factors.
  store_factors-other :
      (k : Text) (requests : HashMap Text KeyReplication) (c : Changing)
      → HashMap.contains k requests ≡ false
      → Ensures
          (λ c'. factor k c'.factors ≡ factor k c.factors)
          (store_factors config peers local_hash_rings rings requests c)
  unfolding store_factors HashMap.find
  store_factors-other k [] c h = returns refl
  store_factors-other k ((key, rep) ∷ more) c h =
      let (other, rest) = absent (key == k) rep (HashMap.find k more) h in
      Ensures-bind _ (store_factor config peers local_hash_rings rings key rep c) _
        (store_factor_lem k key rep c)
        (λ c' e.
          let same : factor k c'.factors ≡ factor k c.factors = rw other at e in
          Ensures-mono _ (λ c'' g. g ∙ same) (store_factors-other k more c' rest))
    where
      absent :
          (here : Bool) (rep : KeyReplication) (found : Option KeyReplication)
          → HashMap.is_some (if here then some rep else found) ≡ false
          → (here ≡ false) × (HashMap.is_some found ≡ false)
      absent true rep found h = absurd (cc h)
      absent false rep found h = (refl, h)

  store_factors_lem :
      (k : Text) (new : KeyReplication) (requests : HashMap Text KeyReplication) (c : Changing)
      → HashMap.Distinct requests
      → HashMap.find k requests ≡ some new
      → Ensures
          (λ c'. factor k c'.factors ≡ chosen new (factor k c.factors))
          (store_factors config peers local_hash_rings rings requests c)
  unfolding store_factors HashMap.find
  store_factors_lem k new [] c d h = absurd (cc h)
  store_factors_lem k new ((key, rep) ∷ more) c (fresh, d) h =
      Ensures-bind _ (store_factor config peers local_hash_rings rings key rep c) _
        (store_factor_lem k key rep c)
        (λ c' e. elim (Bool-cases (key == k)) [
          | inl here ↦
              let asked : rep ≡ new = (let i : some rep ≡ some new = rw here at h in cc i) in
              let f : factor k c'.factors ≡ chosen new (factor k c.factors) =
                rw (here, asked) at e in
              Ensures-mono _ (λ c'' g. g ∙ f)
                (store_factors-other k more c' (rw (← (==_iff key k).0 here) fresh))
          | inr other ↦
              let f : factor k c'.factors ≡ factor k c.factors = rw other at e in
              Ensures-mono _ (λ c'' g. g ∙ ap (chosen new) f)
                (store_factors_lem k new more c' d (rw other at h))
        ])

outcome :
    (k : Text) (new : KeyReplication) (requests m factors : HashMap Text KeyReplication)
    (restored failed : Bool)
    → restored ≡ failed
    → HashMap.find k requests ≡ some new
    → factor k factors ≡ chosen new (factor k m)
    → (if restored then factor k (originals requests m) else factor k factors)
      ≡ (if failed then factor k m else chosen new (factor k m))
outcome k new requests m factors true failed e asked h =
    rw (← e) (factor-originals k new requests m asked)
outcome k new requests m factors false failed e asked h = rw (← e) h

module _ (config : MonitorConfig) (peers : Peers) (local_hash_rings : GlobalRingMap) where
  -- The first loop over the requests, from the state of the monitor.
  abbrev pub stored : {D : Type 0} → HashMap Text KeyReplication → ℕ → Monitor D → Run Changing
  stored requests rid m =
      store_factors config peers local_hash_rings m.global_hash_rings requests (record {
        factors = m.key_replication_map;
        requests = record { addr_request_map = []; rid = rid; net = m.net };
      })

  -- After a change of replication factors that returns, where no key is requested twice: a requested
  -- key has its old factors, all of them, if a request with its factors, among those that the first
  -- loop made, got no answer or one that says that the server is not responsible for the key; and
  -- else the new factors, all of them, unless these are equal to the old ones.
  pub change_replication_factor-whole :
      {D : Type 0} (requests : HashMap Text KeyReplication) (rid rid' : ℕ) (m m' : Monitor D)
      (k : Text) (new : KeyReplication)
      → HashMap.Distinct requests
      → HashMap.find k requests ≡ some new
      → change_replication_factor config peers local_hash_rings requests rid m ≡ ok (m', rid')
      → (c : Changing) × (stored requests rid m ≡ ok c)
        × (factor k m'.key_replication_map ≡ (
            if fails peers k c.requests.addr_request_map
            then factor k m.key_replication_map
            else chosen new (factor k m.key_replication_map)))
  unfolding change_replication_factor HashSet.contains
  change_replication_factor-whole {D} requests rid rid' m m' k new d asked =
      Ensures-ok
        {P = λ (p : Monitor D × ℕ).
          (c : Changing) × (stored requests rid m ≡ ok c)
          × (factor k p.0.key_replication_map ≡ (
              if fails peers k c.requests.addr_request_map
              then factor k m.key_replication_map
              else chosen new (factor k m.key_replication_map)))}
        _
        (Ensures-bind (λ c. stored requests rid m ≡ ok c) (stored requests rid m) _
          (Ensures-eq _ (λ c e. e))
          (λ c e.
            let failed = (make_requests peers c.requests.addr_request_map ([], c.requests.net)).0 in
            Ensures-bind (λ _. Unit) (tell_changes config m c.factors failed requests []) _
              (Ensures-eq _ (λ _ _. tt))
              (λ updates _. returns (
                c,
                e,
                factor-restore k failed (originals requests m.key_replication_map) c.factors
                    ∙ outcome k new requests m.key_replication_map c.factors
                        (HashSet.contains k failed) (fails peers k c.requests.addr_request_map)
                        (contains-make_requests peers k c.requests.addr_request_map []
                          c.requests.net)
                        asked
                        (Ensures-ok _
                          (store_factors_lem config peers local_hash_rings m.global_hash_rings k new
                            requests _ d asked)
                          e),
              ))))
