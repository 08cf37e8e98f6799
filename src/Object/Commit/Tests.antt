-- ===== src/Object/Commit/Tests.antt =====
-- The text of a commit on concrete values.
use zonegit.Base.{
  ◌≡◌, refl, [], ◌∷◌, ok, err, Error, codes, pos, negsuc, neg, ◌+ℤ◌, difference, scale, show_int,
  read_digits, read_magnitude, read_signed, parse_int, cut_first, cut_last, trim_space, trim_left,
  trim_end, is_space, fields, fields_from, decimal, digits, bytes_eq, replicate,
}
use zonegit.Store.Hash.{string, parse_hash, encode_hex, decode_hex, zero_hash}
use zonegit.Object.Commit.{
  Commit, identity_string, two_digits, time_is_zero, format_offset, format_time, header,
  parent_lines, optional_header, end_message, commit_payload, parse_tz_offset, parse_time,
  parse_identity_line, read_version, read_header, read_line, read_headers, decode_commit, is_one,
}
use zonegit.Object.Commit.Fuel.{decode_commit_ends}

abbrev sample : Commit
sample = record {
  tree = replicate 32 7;
  parents = replicate 32 8 ∷ replicate 32 9 ∷ [];
  author = record { name = codes "Ann B"; email = codes "ann@example.org" };
  committer = record { name = codes "Bo"; email = codes "bo@example.org" };
  author_time = record { unix = pos 1700000000; offset = pos 19800 };
  commit_time = record { unix = negsuc 59; offset = negsuc 12599 };
  selector = [];
  signature = codes "ed25519 AAAA";
  message = codes "Add www";
}

program : Unit {0}
unfolding identity_string two_digits time_is_zero format_offset format_time header parent_lines
    optional_header end_message commit_payload parse_tz_offset parse_time parse_identity_line
    read_version read_header read_line read_headers decode_commit is_one neg ◌+ℤ◌ difference scale
    show_int read_digits read_magnitude read_signed parse_int cut_first cut_last trim_space
    trim_left trim_end is_space fields fields_from digits decimal bytes_eq string parse_hash
    encode_hex decode_hex zero_hash
program = tt

decode_commit-sample : decode_commit (commit_payload sample) ≡ ok sample
unfolding program
decode_commit-sample = refl

decode_commit_ends_example : ¬ (decode_commit (codes "version 1\ntree x") ≡ err Error.out_of_fuel)
decode_commit_ends_example = decode_commit_ends (codes "version 1\ntree x")
