-- ===== src/Ipld/Tests.antt =====
-- Links of a nested node.
use py_ipfs_lite.Prelude.{String, true, false, [], ◌∷◌, In, ◌↔◌, ◌≡◌, refl, nat_eq, string_eq}
use py_ipfs_lite.Errors.{Result, ok, raise, value_error}
use py_ipfs_lite.Ipld.{Value, null, text, bytes, list, dict, tag, nil, cons, end, field}
use py_ipfs_lite.Ipld.Links.{extract, Links, extract_iff_Links}

-- The texts that start with a byte 1 are CIDs here, and every text.
abbrev parse_link : Value → Result String
parse_link (text s) = ok s
parse_link (bytes (b ∷ [])) = ok "one"
parse_link _ = raise value_error

-- {"a": [{"/": "x"}], "b": tag 42 of the bytes 0, 1}
abbrev nested : Value
nested = dict (
    field "a" (list (cons (dict (field "/" (text "x") end)) nil))
      (field "b" (tag 42 (bytes (0 ∷ 1 ∷ []))) end))

extract_test : extract parse_link true nested ≡ ok ("x" ∷ "one" ∷ [])
unfolding extract
extract_test = refl

-- A link that does not parse is skipped, or raises.
bad_link : extract parse_link false (tag 42 null) ≡ ok []
unfolding extract
bad_link = refl

extract_iff_Links_example : In {A = String} "x" ("x" ∷ "one" ∷ []) ↔ Links parse_link "x" nested
extract_iff_Links_example =
    extract_iff_Links parse_link true nested ("x" ∷ "one" ∷ []) "x" extract_test
