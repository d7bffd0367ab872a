-- ===== src/Route/Answers.antt =====
-- What a request for addresses comes to.
use anna.Prelude.{
  ◌≡◌, ◌≢◌, refl, sym, ◌∙◌, ap, list_eq, nat_eq, nat_beq, Bool, true, false, Option, none, some,
  List, [], ◌∷◌, ◌++◌, map, ◌⊎◌, inl, inr, All,
}
use anna.Text.{Text}
use anna.Messages.Carried.{append_nil, Extends, Extends-refl, Extends-trans}
use anna.Metadata.{Tier, all_tiers, is_metadata}
use anna.Ring.Responsible.{get_responsible_threads}
use anna.Ring.Responsible.Asks.{get_responsible_threads-Extends}
use anna.Messages.{
  AnnaError, no_error, no_servers, KeyAddress, KeyAddressRequest, address_response, Net,
}
use anna.Run.{ok, Ensures, returns, Ensures-if, Ensures-ok, Ensures-eq, Ensures-bind, Ensures-mono}
use anna.Threads.{ServerThread}
use anna.Ring.Responsible.{Library}
use anna.Kvs.{push_back}
use anna.Route.{
  RoutingThread, Router, count_servers, no_address, with_addresses,
  replication_response_connect_address, find_threads, next_tier, key_threads, next_key, collect,
  finish, address_handler,
}

abbrev pub keys_of : List KeyAddress → List Text
keys_of = map (λ a. a.key)

module _ (lib : Library) (rt : RoutingThread) where
  -- The key was looked up, with some state of the sockets, and the entry has the addresses of the
  -- threads that were found.
  pub record IsLooked (s : Router) (entry : KeyAddress) : Type 0 where
    pub net : Net
    pub threads : List ServerThread
    pub net_after : Net
    pub looked_up :
        key_threads lib rt entry.key (record s { net = net }) ≡ ok ((threads, true), net_after)
    pub addresses : entry ≡ with_addresses entry.key threads

  -- The request waits, with its address and its id, under the first of its keys whose replication
  -- factor is not known, and nothing else but the sockets changed.
  pub record IsPostponed (req : KeyAddressRequest) (s s' : Router) : Type 0 where
    pub found : List KeyAddress
    pub key : Text
    pub later : List Text
    pub keys : req.keys ≡ keys_of found ++ key ∷ later
    pub looked : All (IsLooked s) found
    pub net : Net
    pub threads : List ServerThread
    pub net_after : Net
    pub unknown : key_threads lib rt key (record s { net = net }) ≡ ok ((threads, false), net_after)
    pub waits : s' ≡ record s {
      pending_requests = push_back key (req.response_address, req.request_id) s.pending_requests;
      net = s'.net;
    }

  -- The entries and the error of the response: without servers an empty entry for each key, and else
  -- what was looked up.
  abbrev pub IsResult : KeyAddressRequest → Router → Bool → List KeyAddress → AnnaError → Type 0
  IsResult req s true addresses error = (addresses ≡ map no_address req.keys) × (error ≡ no_servers)
  IsResult req s false addresses error = All (IsLooked s) addresses × (error ≡ no_error)

  -- The last message sent is the response, to the address and with the id of the request; it has one
  -- entry for each of its keys, in their order; and nothing but the sockets changed.
  pub record IsAnswered (req : KeyAddressRequest) (s s' : Router) : Type 0 where
    pub addresses : List KeyAddress
    pub error : AnnaError
    pub before : Net
    pub asked : Extends s.net before
    pub sent :
        s'.net.sent
        ≡ before.sent
          ++ (
            req.response_address,
            address_response
                (record { addresses = addresses; error = error; response_id = req.request_id }),
          )
            ∷ []
    pub keys : keys_of addresses ≡ req.keys
    pub result : IsResult req s (nat_beq (count_servers s.global_hash_rings) 0) addresses error
    pub same : s' ≡ record s { net = s'.net }

  abbrev Collects : KeyAddressRequest → Router → Option (List KeyAddress) × Router → Type 0
  Collects req s (none, s') = IsPostponed req s s'
  Collects req s (some all, s') =
      (keys_of all ≡ req.keys)
      × All (IsLooked s) all
      × (s' ≡ record s { net = s'.net })
      × Extends s.net s'.net

  keys_of-append :
      (a : List KeyAddress) (b : KeyAddress) (keys : List Text)
      → keys_of (a ++ b ∷ []) ++ keys ≡ keys_of a ++ b.key ∷ keys
  keys_of-append [] b keys = refl
  keys_of-append (x ∷ a) b keys = ap (λ l. x.key ∷ l) (keys_of-append a b keys)

  All-append_one :
      (P : KeyAddress → Type 0) (a : List KeyAddress) (b : KeyAddress)
      → All P a
      → P b
      → All P (a ++ b ∷ [])
  All-append_one P [] b h p = (p, tt)
  All-append_one P (x ∷ a) b (q, h) p = (q, All-append_one P a b h p)

  find_threads-Extends :
      (key : Text) (metadata : Bool) (s : Router) (tiers : List Tier) (net : Net)
      → Ensures (λ found. Extends net found.1) (find_threads lib rt key metadata s tiers net)
  unfolding find_threads next_tier
  find_threads-Extends key metadata s [] net = returns (Extends-refl net)
  find_threads-Extends key metadata s (tier ∷ tiers) net =
      Ensures-bind (λ found. Extends net found.1)
        (get_responsible_threads lib (replication_response_connect_address rt) key metadata
          s.global_hash_rings s.local_hash_rings s.key_replication_map (tier ∷ []) net)
        _
        (get_responsible_threads-Extends lib (replication_response_connect_address rt) key metadata
          s.global_hash_rings s.local_hash_rings s.key_replication_map (tier ∷ []) net)
        (λ found e. next (λ net'. find_threads-Extends key metadata s tiers net') found e)
    where
      next :
          ((net' : Net)
            → Ensures
                (λ (f : (List ServerThread × Bool) × Net). Extends net' f.1)
                (find_threads lib rt key metadata s tiers net'))
          → (found : (List ServerThread × Bool) × Net) → Extends net found.1
          → Ensures
              (λ (f : (List ServerThread × Bool) × Net). Extends net f.1)
              (next_tier found (find_threads lib rt key metadata s tiers))
      next again ((t ∷ threads, succeed), net') e = returns e
      next again (([], false), net') e = returns e
      next again (([], true), net') e =
          Ensures-mono _ (λ f h. Extends-trans net net' f.1 e h) (again net')

  key_threads-Extends :
      (key : Text) (s : Router)
      → Ensures (λ found. Extends s.net found.1) (key_threads lib rt key s)
  unfolding key_threads
  key_threads-Extends [] s = returns (Extends-refl s.net)
  key_threads-Extends (c ∷ key) s =
      Ensures-bind (λ _. Unit) (is_metadata (c ∷ key)) _ (Ensures-eq _ (λ _ _. tt))
        (λ metadata _. find_threads-Extends (c ∷ key) metadata s all_tiers s.net)

  module _ (req : KeyAddressRequest) (s : Router) where
    collect-Collects :
        (keys : List Text) (addresses : List KeyAddress) (net : Net)
        → req.keys ≡ keys_of addresses ++ keys
        → All (IsLooked s) addresses
        → Extends s.net net
        → Ensures (Collects req s) (collect lib rt req keys (record s { net = net }) addresses)
    unfolding collect next_key
    collect-Collects [] addresses net k h e =
        returns (sym (k ∙ append_nil (keys_of addresses)), h, refl, e)
    collect-Collects (key ∷ keys) addresses net k h e =
        Ensures-bind
          (λ found.
            (key_threads lib rt key (record s { net = net }) ≡ ok found) × Extends net found.1)
          (key_threads lib rt key (record s { net = net })) _
          (Ensures-eq _
            (λ found l. (l, Ensures-ok _ (key_threads-Extends key (record s { net = net })) l)))
          (λ found (l, g).
            next
              (λ threads net' t g'.
                collect-Collects keys (addresses ++ with_addresses key threads ∷ []) net'
                  (k ∙ sym (keys_of-append addresses (with_addresses key threads) keys))
                  (All-append_one (IsLooked s) addresses (with_addresses key threads) h t)
                  (Extends-trans s.net net net' e g'))
              found l g)
      where
        next :
            ((threads : List ServerThread) (net' : Net)
              → IsLooked s (with_addresses key threads)
              → Extends net net'
              → Ensures (Collects req s) (
                  collect lib rt req keys
                    (record s { net = net' })
                    (addresses ++ with_addresses key threads ∷ [])))
            → (found : (List ServerThread × Bool) × Net)
            → key_threads lib rt key (record s { net = net }) ≡ ok found
            → Extends net found.1
            → Ensures (Collects req s) (
                next_key lib rt req key
                  (record s { net = net })
                  found
                  (λ threads s'.
                    collect lib rt req keys s' (addresses ++ with_addresses key threads ∷ [])))
        next again ((threads, false), net') l g = returns (record {
          found = addresses;
          key = key;
          later = keys;
          keys = k;
          looked = h;
          net = net;
          threads = threads;
          net_after = net';
          unknown = l;
          waits = refl;
        })
        next again ((threads, true), net') l g =
            again threads net'
              (record {
                net = net;
                threads = threads;
                net_after = net';
                looked_up = l;
                addresses = refl;
              })
              g

    finish-IsAnswered :
        (p : Option (List KeyAddress) × Router)
        → req.keys ≢ []
        → nat_beq (count_servers s.global_hash_rings) 0 ≡ false
        → Collects req s p
        → IsAnswered req s (finish lib rt req p.0 p.1)
          ⊎ IsPostponed req s (finish lib rt req p.0 p.1)
    unfolding finish
    finish-IsAnswered (none, s') some_key servers h = inr h
    finish-IsAnswered (some [], s') some_key servers h = absurd (some_key (sym h.0))
    finish-IsAnswered (some (a ∷ addresses), s') some_key servers (k, l, same, e) = inl (record {
      addresses = a ∷ addresses;
      error = no_error;
      before = s'.net;
      asked = e;
      sent = refl;
      keys = k;
      result = rw servers (l, refl);
      same =
          ap (λ (r : Router). record r { net = (finish lib rt req (some (a ∷ addresses)) s').net })
            same;
    })

  keys_of-no_address : (keys : List Text) → keys_of (map no_address keys) ≡ keys
  keys_of-no_address [] = refl
  keys_of-no_address (k ∷ keys) = ap (λ l. k ∷ l) (keys_of-no_address keys)

  -- A request for the addresses of at least one key that is handled is either answered, with one
  -- entry for each key in the order of the request, or waits, with its address and its id. Without
  -- servers it is answered with that error and without addresses. With servers the entry of a key
  -- has the addresses of the threads that a look-up of the key found, and it waits where the look-up
  -- of one of its keys finds no replication factor, under the first such key. Nothing but the
  -- sockets and, if it waits, the waiting requests of that key changes.
  pub address_handler-answers :
      (req : KeyAddressRequest) (s s' : Router)
      → req.keys ≢ []
      → address_handler lib rt req s ≡ ok s'
      → IsAnswered req s s' ⊎ IsPostponed req s s'
  unfolding address_handler
  address_handler-answers req s s' some_key =
      Ensures-ok {P = λ s'. IsAnswered req s s' ⊎ IsPostponed req s s'} _ (
        Ensures-if (nat_beq (count_servers s.global_hash_rings) 0) _ _
          (λ no_server. returns (
            inl (record {
              addresses = map no_address req.keys;
              error = no_servers;
              before = s.net;
              asked = Extends-refl s.net;
              sent = refl;
              keys = keys_of-no_address req.keys;
              result = rw no_server (refl, refl);
              same = refl;
            })))
          (λ servers.
            Ensures-bind (Collects req s) (collect lib rt req req.keys s []) _
              (collect-Collects req s req.keys [] s.net refl tt (Extends-refl s.net))
              (λ p h. returns (finish-IsAnswered req s p some_key servers h))))
