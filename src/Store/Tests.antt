-- ===== src/Store/Tests.antt =====
-- The store at concrete inputs.
use zonegit.Base.{
  ◌≡◌, refl, arith, ◌↔◌, Bytes, false, codes, bytes_eq, ok, replicate, lookup, assign, remove, [],
}
use zonegit.Store.Hash.{Hash, is_zero, zero_hash, string, parse_hash}
use zonegit.Store.Hash.Laws.{parse_hash-string}
use zonegit.Store.MemStore.{new_store, get_ref, cas_ref, delete_ref, ReflogEntry}
use zonegit.Store.MemStore.Refs.{Expects, cas_ref_iff}

abbrev one_hash : Hash
one_hash = replicate 32 1

abbrev two_hash : Hash
two_hash = replicate 32 2

abbrev main_ref : Bytes
main_ref = codes "refs/heads/foo.com./main"

program : Unit {0}
unfolding bytes_eq zero_hash is_zero lookup assign remove get_ref cas_ref delete_ref
program = tt

parse_hash-string_example : parse_hash (string one_hash) ≡ ok one_hash
parse_hash-string_example = parse_hash-string one_hash (refl, omega arith)

cas_ref_iff_example :
    ((cas_ref main_ref zero_hash one_hash new_store).0 ≡ ok tt)
    ↔ ((is_zero one_hash ≡ false) × Expects new_store main_ref zero_hash)
cas_ref_iff_example = cas_ref_iff main_ref zero_hash one_hash new_store

abbrev created : ReflogEntry
created = record {
  old = zero_hash;
  new = one_hash;
  author = codes "A <a@b>";
  unix_time = 1;
  tz_offset = 0;
  op = codes "commit";
  message = [];
}
