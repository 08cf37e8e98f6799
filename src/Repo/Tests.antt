-- ===== src/Repo/Tests.antt =====
-- Two branches with one root.
use zonegit.Base.{
  ℕ, ◌≡◌, refl, true, false, [], ◌∷◌, List, ok, replicate, pos, neg, ◌+ℤ◌, difference, scale,
  show_int, read_digits, read_magnitude, read_signed, parse_int, cut_first, cut_last, trim_space,
  trim_left, trim_end, is_space, fields, fields_from, decimal, digits, bytes_eq, codes, lookup,
}
use zonegit.Store.Hash.{Hash, string, parse_hash, encode_hex, decode_hex, zero_hash, is_zero}
use zonegit.Store.MemStore.{Object, Store, get_object}
use zonegit.Object.{kind_commit}
use zonegit.Object.Commit.{
  identity_string, two_digits, time_is_zero, format_offset, format_time, header, parent_lines,
  optional_header, end_message, commit_payload, parse_tz_offset, parse_time, parse_identity_line,
  read_version, read_header, read_line, read_headers, decode_commit, is_one,
}
use zonegit.Repo.{
  load_commit, member, unseen, enqueue, ancestor_round, ancestor_loop, ancestor_set, search,
  first_or_zero, merge_base, is_ancestor,
}

abbrev id_of : ℕ → Hash
id_of n = replicate 32 n

abbrev commit_on : List Hash → Object
commit_on parents = record {
  kind = kind_commit;
  payload = commit_payload (record {
    tree = id_of 9;
    parents = parents;
    author = record { name = codes "A"; email = codes "a@b" };
    committer = record { name = codes "A"; email = codes "a@b" };
    author_time = record { unix = pos 5; offset = pos 0 };
    commit_time = record { unix = pos 5; offset = pos 0 };
    selector = [];
    signature = [];
    message = codes "m";
  });
}

-- 1 is the root, 2 and 3 stand on it, and 4 merges 2 into 3.
abbrev history : Store
history = record {
  objects =
      (id_of 1, commit_on [])
      ∷ (id_of 2, commit_on (id_of 1 ∷ []))
      ∷ (id_of 3, commit_on (id_of 1 ∷ []))
      ∷ (id_of 4, commit_on (id_of 3 ∷ id_of 2 ∷ []))
      ∷ [];
  refs = [];
  reflog = [];
}

program : Unit {0}
unfolding identity_string two_digits time_is_zero format_offset format_time header parent_lines
    optional_header end_message commit_payload parse_tz_offset parse_time parse_identity_line
    read_version read_header read_line read_headers decode_commit is_one neg ◌+ℤ◌ difference scale
    show_int read_digits read_magnitude read_signed parse_int cut_first cut_last trim_space
    trim_left trim_end is_space fields fields_from digits decimal bytes_eq string parse_hash
    encode_hex decode_hex zero_hash is_zero get_object lookup load_commit member unseen enqueue
    ancestor_round ancestor_loop ancestor_set search first_or_zero merge_base is_ancestor
program = tt

merge_base-history : merge_base history 6 (id_of 2) (id_of 3) ≡ ok (id_of 1)
unfolding program
merge_base-history = refl

is_ancestor-history :
    (is_ancestor history 6 (id_of 2) (id_of 4) ≡ ok true)
    × (is_ancestor history 6 (id_of 2) (id_of 3) ≡ ok false)
unfolding program
is_ancestor-history = (refl, refl)
