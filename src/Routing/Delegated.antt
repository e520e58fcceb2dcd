-- ===== src/Routing/Delegated.antt =====
-- `DelegatedHTTPRouting.find_providers`, `provide`, `get_value` and `put_value`. The HTTP client, JSON
-- and the parsers of libp2p and multiaddr are parameters: an answer of the client is a value.
use py_ipfs_lite.Prelude.{
  ℕ, ◌+◌, ◌≤◌, max, String, Bool, true, false, ◌||◌, Option, none, some, List, [], ◌∷◌, ◌++◌,
  if◌then◌else◌, length, leb, nat_beq, string_eq, arith, length-append, if_both,
}
use py_ipfs_lite.Errors.{Result, ok, raise}
use py_ipfs_lite.Routing.Tiered.{PeerInfo}

-- One provider of a response: its "ID" (none where it is missing or empty) and its "Addrs". A line
-- that raises, as JSON or below, is `broken`.
pub data Entry : Type 0 where
  broken : Entry
  entry : Option String → List String → Entry

-- A response of the client: its status and its providers.
pub record Response : Type 0 where
  pub status_code : ℕ
  pub entries : List Entry

unfoldable pub parsed_addrs : (String → Option String) → List String → List String
parsed_addrs parse [] = []
parsed_addrs parse (a ∷ addrs) =
    let rest = parsed_addrs parse addrs in elim (parse a) [ none ↦ rest | some m ↦ m ∷ rest ]

abbrev pub or_parse : Option String → Option String → Option String
or_parse none second = second
or_parse (some m) second = some m

-- `parse_id` is ID.from_base58, `parse_addr` is Multiaddr, and `parse_encoded` is Multiaddr of the
-- base64 decoding; none where they raise.
module _ (parse_id : String → Option String)
    (parse_addr parse_encoded : String → Option String) where
  abbrev pub add_parsed : Option String → List String → List PeerInfo → List PeerInfo
  add_parsed none maddrs providers = providers
  add_parsed (some p) maddrs providers = providers ++ (record { peer_id = p; addrs = maddrs } ∷ [])

  -- The loop over the lines; true where it has returned.
  unfoldable pub read_lines : ℕ → List Entry → List PeerInfo → List PeerInfo
  unfolding parsed_addrs
  read_lines count [] providers = providers
  read_lines count (broken ∷ es) providers = read_lines count es providers
  read_lines count (entry none addrs ∷ es) providers = read_lines count es providers
  read_lines count (entry (some p) addrs ∷ es) providers =
      let found = add_parsed (parse_id p) (parsed_addrs parse_addr addrs) providers in
      let rest = read_lines count es found in if leb count (length found) then found else rest

  -- The loops over the results of the native IPNI API, where the first broken entry ends them.
  unfoldable pub read_results : ℕ → List Entry → List PeerInfo → List PeerInfo
  unfolding parsed_addrs
  read_results count [] providers = providers
  read_results count (broken ∷ es) providers = providers
  read_results count (entry none addrs ∷ es) providers = read_results count es providers
  read_results count (entry (some p) addrs ∷ es) providers =
      let found =
        add_parsed (parse_id p)
          (parsed_addrs (λ a. or_parse (parse_encoded a) (parse_addr a)) addrs) providers in
      let rest = read_results count es found in if leb count (length found) then found else rest

  -- `first` is the answer of the Delegated Routing API, `second` that of the native API.
  abbrev pub find_second : ℕ → Result Response → List PeerInfo
  find_second count (raise _) = []
  find_second count (ok r) =
      if nat_beq r.status_code 200 then read_results count r.entries [] else []

  abbrev pub find_delegated : ℕ → Result Response → Result Response → List PeerInfo
  find_delegated count (raise _) second = []
  find_delegated count (ok r) second =
      if nat_beq r.status_code 200 then read_lines count r.entries [] else find_second count second

  module _ (count : ℕ) where
    add_parsed_le :
        (p : Option String) (maddrs : List String) (found : List PeerInfo)
        → length (add_parsed p maddrs found) ≤ length found + 1
    add_parsed_le none maddrs found = ground arith
    add_parsed_le (some p) maddrs found =
        ground (arith, length-append found (record { peer_id = p; addrs = maddrs } ∷ []))

    read_lines_le :
        (es : List Entry) (found : List PeerInfo)
        → length found + 1 ≤ max count 1
        → length (read_lines count es found) ≤ max count 1
    unfolding read_lines
    read_lines_le [] found h = ground (arith, h)
    read_lines_le (broken ∷ es) found h = read_lines_le es found h
    read_lines_le (entry none addrs ∷ es) found h = read_lines_le es found h
    read_lines_le (entry (some p) addrs ∷ es) found h =
        let next = add_parsed (parse_id p) (parsed_addrs parse_addr addrs) found in
        let le = add_parsed_le (parse_id p) (parsed_addrs parse_addr addrs) found in
        if_both (λ l. length l ≤ max count 1) (leb count (length next)) {x = next}
          {y = read_lines count es next} (λ e. ground (arith, h, le))
          (λ e. read_lines_le es next (ground (arith, e)))

    read_results_le :
        (es : List Entry) (found : List PeerInfo)
        → length found + 1 ≤ max count 1
        → length (read_results count es found) ≤ max count 1
    unfolding read_results
    read_results_le [] found h = ground (arith, h)
    read_results_le (broken ∷ es) found h = ground (arith, h)
    read_results_le (entry none addrs ∷ es) found h = read_results_le es found h
    read_results_le (entry (some p) addrs ∷ es) found h =
        let next =
          add_parsed (parse_id p)
            (parsed_addrs (λ a. or_parse (parse_encoded a) (parse_addr a)) addrs) found in
        let le =
          add_parsed_le (parse_id p)
            (parsed_addrs (λ a. or_parse (parse_encoded a) (parse_addr a)) addrs) found in
        if_both (λ l. length l ≤ max count 1) (leb count (length next)) {x = next}
          {y = read_results count es next} (λ e. ground (arith, h, le))
          (λ e. read_results_le es next (ground (arith, e)))

    -- Whatever the servers answer, at most `count` providers are returned, or one for a count of 0.
    pub find_delegated_le :
        (first second : Result Response) → length (find_delegated count first second) ≤ max count 1
    find_delegated_le (raise e) second = ground arith
    find_delegated_le (ok r) second =
        if_both (λ l. length l ≤ max count 1) (nat_beq r.status_code 200)
          (λ e. read_lines_le r.entries [] (ground arith)) (λ e. second_le second)
      where
        second_le : (second : Result Response) → length (find_second count second) ≤ max count 1
        second_le (raise x) = ground arith
        second_le (ok q) =
            if_both (λ l. length l ≤ max count 1) (nat_beq q.status_code 200)
              (λ e. read_results_le q.entries [] (ground arith)) (λ e. ground arith)

-- `provide`: the status of the response, where there is a host.
abbrev pub provide_delegated : Bool → Result ℕ → Bool
provide_delegated false answer = false
provide_delegated true (raise _) = false
provide_delegated true (ok status) = nat_beq status 200 || nat_beq status 202 || nat_beq status 204
