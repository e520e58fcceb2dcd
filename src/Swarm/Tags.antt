-- ===== src/Swarm/Tags.antt =====
-- Addresses of peers, and their tags and protections. libp2p's parsers and its tag store are
-- parameters, `S` being the state of the store.
use py_ipfs_lite.Prelude.{
  ℕ, String, Bool, true, ◌||◌, Option, none, some, List, [], ◌∷◌, ◌≡◌, refl, ap, ◌==◌, string_eq,
  if◌then◌else◌, ltb, arith, if_both, subst, beq_refl,
}
use py_ipfs_lite.Errors.{Error, Result, ok, raise}
use py_ipfs_lite.Dict.{Dict, get}

-- How a call is refused: by PeerNotStartedError, by HTTPException with a status, or by what the
-- library raises.
pub data Answer (A : Type 0) : Type 0 where
  done : A → Answer A
  not_started : Answer A
  http : ℕ → Answer A
  raised : Error → Answer A

done-injective : {A : Type 0} {a b : A} → done a ≡ done b → a ≡ b
done-injective h = ground arith

pub record TagInfo : Type 0 where
  pub tags : Dict String ℕ
  pub total_value : ℕ

pub record TagLib (PeerId S : Type 0) : Type 0 where
  -- info_from_p2p_addr(Multiaddr(text)).peer_id, ID.from_base58(text)
  pub from_multiaddr : String → Result PeerId
  pub from_base58 : String → Result PeerId
  -- len(text), text.startswith("/")
  pub text_length : String → ℕ
  pub is_address : String → Bool
  pub tag_peer : PeerId → String → ℕ → S → S
  pub untag_peer : PeerId → String → S → S
  pub get_tag_info : PeerId → S → Option TagInfo
  pub protect : PeerId → String → S → S
  -- whether the protection was there
  pub unprotect : PeerId → String → S → Bool × S
  pub get_all_peers : S → List PeerId

module _ {PeerId S : Type 0} (lib : TagLib PeerId S) where
  open lib use {
    from_multiaddr, from_base58, text_length, is_address, tag_peer, untag_peer, get_tag_info,
    protect, unprotect, get_all_peers,
  }

  abbrev pub parsed : Result PeerId → Answer PeerId
  parsed (ok p) = done p
  parsed (raise err) = http 400

  -- `_resolve_peer_id`
  abbrev pub resolve_peer_id : String → Answer PeerId
  resolve_peer_id text =
      if is_address text then parsed (from_multiaddr text) else parsed (from_base58 text)

  -- `_resolve_peer_id` and then `_tag_store_for`; `found` is the swarm's tag store, if it has one.
  abbrev pub with_peer :
      {A : Type 0} → Answer PeerId → Option S → (PeerId → S → Answer A × S) → Answer A × Option S
  with_peer (done p) none f = (http 503, none)
  with_peer (done p) (some s) f = let (a, s') = f p s in (a, some s')
  with_peer not_started found f = (not_started, found)
  with_peer (http n) found f = (http n, found)
  with_peer (raised err) found f = (raised err, found)

  abbrev pub on_host : {A : Type 0} → Bool → Option S → Answer A × Option S → Answer A × Option S
  on_host has_host found r = if has_host then r else (not_started, found)

  abbrev pub lost : {A : Type 0} → Result A → Answer A
  lost (ok a) = done a
  lost (raise err) = raised err

  abbrev pub dialled : (PeerId → Result (Unit {0})) → Result PeerId → Answer (Unit {0})
  dialled connect (ok p) = lost (connect p)
  dialled connect (raise err) = http 400

  -- `connect_peer`; `connect` is the host's.
  unfoldable pub connect_peer : (PeerId → Result (Unit {0})) → Bool → String → Answer (Unit {0})
  connect_peer connect has_host addr =
      if has_host then dialled connect (from_multiaddr addr) else not_started

  -- `disconnect_peer`
  unfoldable pub disconnect_peer : (PeerId → Result (Unit {0})) → Bool → String → Answer (Unit {0})
  disconnect_peer disconnect has_host text =
      if has_host
      then dialled disconnect (if is_address text then from_multiaddr text else from_base58 text)
      else not_started

  unfoldable pub protect_peer : Bool → String → String → Option S → Answer PeerId × Option S
  protect_peer has_host text tag found =
      on_host has_host found
        (with_peer (resolve_peer_id text) found (λ p s. (done p, protect p tag s)))

  unfoldable pub unprotect_peer :
      Bool → String → String → Option S → Answer (PeerId × Bool) × Option S
  unprotect_peer has_host text tag found = on_host has_host found (
      with_peer (resolve_peer_id text) found
        (λ p s. let (removed, s') = unprotect p tag s in (done (p, removed), s')))

  abbrev pub tagged : String → ℕ → PeerId → S → Answer (PeerId × ℕ) × S
  tagged tag value p s = (done (p, value), tag_peer p tag value s)

  unfoldable pub set_peer_tag :
      Bool → String → String → ℕ → Option S → Answer (PeerId × ℕ) × Option S
  set_peer_tag has_host text tag value found = on_host has_host found (
      if tag == "" || ltb 256 (text_length tag)
      then (http 400, found)
      else with_peer (resolve_peer_id text) found (tagged tag value))

  abbrev pub tag_of : String → Option TagInfo → Option ℕ
  tag_of tag none = none
  tag_of tag (some info) = get tag info.tags

  abbrev pub untagged : PeerId → String → Option ℕ → S → Answer (PeerId × ℕ) × S
  untagged p tag none s = (http 404, s)
  untagged p tag (some old_value) s = (done (p, old_value), untag_peer p tag s)

  abbrev pub take_tag : String → PeerId → S → Answer (PeerId × ℕ) × S
  take_tag tag p s = untagged p tag (tag_of tag (get_tag_info p s)) s

  unfoldable pub remove_peer_tag :
      Bool → String → String → Option S → Answer (PeerId × ℕ) × Option S
  remove_peer_tag has_host text tag found =
      on_host has_host found (with_peer (resolve_peer_id text) found (take_tag tag))

  -- `list_peer_tags`, before it is sorted by the total value: the peers that have info.
  unfoldable pub tagged_from : List PeerId → S → List (PeerId × TagInfo)
  tagged_from [] s = []
  tagged_from (p ∷ ps) s =
      let rest = tagged_from ps s in
      elim (get_tag_info p s) [ none ↦ rest | some info ↦ (p, info) ∷ rest ]

  -- The tags of a peer in the store.
  abbrev pub tag_in : S → PeerId → String → Option ℕ
  tag_in s p tag = tag_of tag (get_tag_info p s)

  module _
      (tags : (p : PeerId) (tag : String) (value : ℕ) (s : S) (x : String)
        → tag_in (tag_peer p tag value s) p x ≡ (if tag == x then some value else tag_in s p x))
      (untags : (p : PeerId) (tag : String) (s : S) (x : String)
        → tag_in (untag_peer p tag s) p x ≡ (if tag == x then none else tag_in s p x)) where
    -- What a removal answers, and the store that it leaves.
    abbrev pub TakenBack : String → ℕ → PeerId → S → Answer (PeerId × ℕ) × Option S → Type 0
    TakenBack tag value p s r =
        (r.0 ≡ done (p, value))
        × (s' : S) × (r.1 ≡ some s')
        × ((x : String) → tag_in s' p x ≡ (if tag == x then none else tag_in s p x))

    found_tag :
        (tag : String) (value : ℕ) (p : PeerId) (s : S)
        → tag_in (tag_peer p tag value s) p tag ≡ some value
    found_tag tag value p s = ground (arith, tags p tag value s tag, beq_refl tag)

    take_tag-tagged :
        (tag : String) (value : ℕ) (p : PeerId) (s : S)
        → take_tag tag p (tag_peer p tag value s)
          ≡ (done (p, value), untag_peer p tag (tag_peer p tag value s))
    take_tag-tagged tag value p s =
        ap (λ o. untagged p tag o (tag_peer p tag value s)) (found_tag tag value p s)

    untag-tag :
        (tag : String) (value : ℕ) (p : PeerId) (s : S) (x : String)
        → tag_in (untag_peer p tag (tag_peer p tag value s)) p x
          ≡ (if tag == x then none else tag_in s p x)
    untag-tag tag value p s x =
        ground (arith, untags p tag (tag_peer p tag value s) x, tags p tag value s x)

    tagged-TakenBack :
        (tag : String) (value : ℕ) (a : Answer PeerId) (found : Option S) (r : PeerId × ℕ)
        → (with_peer a found (tagged tag value)).0 ≡ done r
        → (s : S) × (found ≡ some s)
          × TakenBack tag value r.0 s
              (with_peer a (with_peer a found (tagged tag value)).1 (take_tag tag))
    tagged-TakenBack tag value (done p) none r h = cc
    tagged-TakenBack tag value (done p) (some s) r h =
        let same : p ≡ r.0 = ap (λ z. z.0) (done-injective h) in
        (
          s,
          refl,
          subst
              (λ q. TakenBack tag value q s (
                (take_tag tag p (tag_peer p tag value s)).0,
                some (take_tag tag p (tag_peer p tag value s)).1,
              ))
              same
              (
                ap (λ z. z.0) (take_tag-tagged tag value p s),
                untag_peer p tag (tag_peer p tag value s),
                ap (λ z. some z.1) (take_tag-tagged tag value p s),
                untag-tag tag value p s,
              ),
        )
    tagged-TakenBack tag value not_started found r h = cc
    tagged-TakenBack tag value (http n) found r h = cc
    tagged-TakenBack tag value (raised err) found r h = cc

    -- Where the tag store sets and removes exactly the tag that it is told to: after a call of
    -- `set_peer_tag` that returns, `remove_peer_tag` returns the peer and the value that was set, and
    -- leaves the peer without that tag and with its other tags as they were before both calls.
    pub set_peer_tag-remove_peer_tag :
        (text tag : String) (value : ℕ) (found : Option S) (r : PeerId × ℕ)
        → (set_peer_tag true text tag value found).0 ≡ done r
        → (s : S) × (found ≡ some s)
          × TakenBack tag value r.0 s
              (remove_peer_tag true text tag (set_peer_tag true text tag value found).1)
    unfolding set_peer_tag remove_peer_tag
    set_peer_tag-remove_peer_tag text tag value found r h =
        if_both
          (λ (z : Answer (PeerId × ℕ) × Option S).
            z.0 ≡ done r
            → (s : S) × (found ≡ some s)
              × TakenBack tag value r.0 s (with_peer (resolve_peer_id text) z.1 (take_tag tag)))
          (tag == "" || ltb 256 (text_length tag)) {x = (http 400, found)}
          {y = with_peer (resolve_peer_id text) found (tagged tag value)} (λ b h. cc)
          (λ b h. tagged-TakenBack tag value (resolve_peer_id text) found r h) h
