-- ===== src/Ring/MetadataRequest.antt =====
-- The requests for metadata that a server and the monitor collect by address: prepare_metadata_request
-- and the two functions that use it, of src/hash_ring/hash_ring.cpp, and generate_timestamp of
-- common/include/common.hpp.
use anna.Prelude.{
  ℕ, zero, suc, ◌+◌, ◌*◌, ◌%◌, ◌/◌, ◌^◌, ◌<◌, ◌≡◌, refl, list_eq, nat_eq, leb, false, Option, none,
  some, List, [], ◌∷◌, ◌++◌, length, arith, if◌then◌else◌, Bool-cases, inl, inr,
}
use anna.Containers.HashMap
use anna.Containers.HashMap.{HashMap}
use anna.Text.{Text, codes, to_string}
use anna.Messages.{
  LatticeType, RequestType, KeyRequest, Net, prepare_get_tuple, prepare_put_tuple, empty_request,
}
use anna.Run.{Run, ok, endless, or_fault, ◌>>=◌}
use anna.Threads.{ServerThread, key_request_connect_address}
use anna.Ring.HashRing.{HashRing}
use anna.Ring.Responsible.{Library, get_responsible_threads_metadata, pick}

-- `addr_request_map`, the request id that comes next, and the sockets.
pub record Requests : Type 0 where
  pub addr_request_map : HashMap Text KeyRequest
  pub rid : ℕ
  pub net : Net

-- The request of an address, opened where there is none yet. The request id is counted in 32 bits.
unfoldable pub open_request : RequestType → Text → Text → Requests → Requests
open_request type response_address target rs =
    if HashMap.contains target rs.addr_request_map then rs else record rs {
      addr_request_map =
          HashMap.assign target
            (record {
              type = type;
              tuples = [];
              response_address = response_address;
              request_id = response_address ++ (codes ":" ++ to_string rs.rid);
            })
            rs.addr_request_map;
      rid = (rs.rid + 1) % 2 ^ 32;
    }

-- `addr_request_map[target]`, changed.
abbrev pub change_request : (KeyRequest → KeyRequest) → Text → Requests → Requests
change_request f target rs = record rs {
  addr_request_map =
      HashMap.assign target (f (HashMap.at empty_request target rs.addr_request_map))
        rs.addr_request_map;
}

module _ (lib : Library) where
  -- `std::next(begin(threads), rand() % threads.size())`, "In case no servers have joined yet" not
  unfoldable pub prepare_for :
      RequestType → Text → List ServerThread → Requests → Run (Option Text × Requests)
  prepare_for type response_address [] rs = ok (none, rs)
  prepare_for type response_address (thread ∷ threads) rs = do
    let (n, state) = lib.rand rs.net.rand_state
    target ← pick lib (n % length (thread ∷ threads)) (thread ∷ threads)
    let address = key_request_connect_address target
    ok (
      some address,
      open_request type response_address address
          (record rs { net = record rs.net { rand_state = state } }),
    )

  -- The address, where the source returns an empty one for none.
  unfoldable pub prepare_metadata_request :
      RequestType → Text → Text → HashRing → HashRing → Requests → Run (Option Text × Requests)
  prepare_metadata_request type response_address key global_ring local_ring rs = do
    threads ← get_responsible_threads_metadata lib key global_ring local_ring
    prepare_for type response_address threads rs

  abbrev pub with_target : (KeyRequest → KeyRequest) → Option Text × Requests → Requests
  with_target f (none, rs) = rs
  with_target f (some target, rs) = change_request f target rs

  unfoldable pub prepare_metadata_get_request :
      Text → HashRing → HashRing → Text → Requests → Run Requests
  prepare_metadata_get_request key global_ring local_ring response_address rs = do
    found ← prepare_metadata_request RequestType.get response_address key global_ring local_ring rs
    ok (with_target (λ r. prepare_get_tuple r key LatticeType.lww) found)

-- `while (id >= pow) pow *= 10`, on 32 bits, by the rounds left
unfoldable pub pow_above : ℕ → ℕ → ℕ → Option ℕ
pow_above zero id pow = if leb pow id then none else some pow
pow_above (suc rounds) id pow =
    let rest = pow_above rounds id ((pow * 10) % 2 ^ 32) in if leb pow id then rest else some pow

-- generate_timestamp, at a time in milliseconds that get_time returned, on 64 bits. Ten rounds are enough for every id
-- below 10 ^ 9, and the source only passes 0.
unfoldable pub generate_timestamp : ℕ → ℕ → Run ℕ
generate_timestamp time id = do
  pow ← or_fault endless (pow_above 10 id 10)
  ok ((time * pow + id) % 2 ^ 64)

module _ (lib : Library) (print_lww : ℕ → Text → Text) where
  abbrev pub with_put : Text → Text → Option Text × Requests → Run Requests
  with_put key value (none, rs) = ok rs
  with_put key value (some target, rs) = do
    ts ← generate_timestamp (lib.clock rs.net.ticks / 1000000) 0
    ok (
        change_request (λ r. prepare_put_tuple r key LatticeType.lww (print_lww ts value)) target
          (record rs { net = record rs.net { ticks = rs.net.ticks + 1 } }))

  unfoldable pub prepare_metadata_put_request :
      Text → Text → HashRing → HashRing → Text → Requests → Run Requests
  prepare_metadata_put_request key value global_ring local_ring response_address rs = do
    found ←
        prepare_metadata_request lib RequestType.put response_address key global_ring local_ring rs
    with_put key value found

abbrev Above : ℕ → ℕ → ℕ → Type 0
Above rounds id pow = (p : ℕ) × (pow_above rounds id pow ≡ some p) × (id < p)

Above-stop : (rounds id pow : ℕ) → id < pow → Above (suc rounds) id pow
unfolding pow_above
Above-stop rounds id pow h = (pow, rw low refl, h)
  where
    low : leb pow id ≡ false
    low = ground arith

Above-next :
    (rounds id pow : ℕ) → pow * 10 < 2 ^ 32 → Above rounds id (pow * 10) → Above (suc rounds) id pow
unfolding pow_above
Above-next rounds id pow b (p, e, h) = elim (Bool-cases (leb pow id)) [
  | inl up ↦ (p, rw (up, fits (pow * 10) b) e, h)
  | inr done ↦ (pow, rw done refl, ground arith)
]
  where
    fits : (n : ℕ) → n < 2 ^ 32 → n % 2 ^ 32 ≡ n
    fits n h = omega arith

-- For an id below 10 ^ 9 the loop ends, with a power above the id.
pub pow_above_lem : (id : ℕ) → id < 1000000000 → Above 10 id 10
pow_above_lem id h = Above-next 9 id 10 (omega arith) (
    Above-next 8 id 100 (omega arith) (
      Above-next 7 id 1000 (omega arith) (
        Above-next 6 id 10000 (omega arith) (
          Above-next 5 id 100000 (omega arith) (
            Above-next 4 id 1000000 (omega arith) (
              Above-next 3 id 10000000 (omega arith)
                (Above-next 2 id 100000000 (omega arith) (Above-stop 1 id 1000000000 h))))))))
