-- ===== src/Repo/Sample.antt =====
-- The names that a run of the repository computes with, and a repository with a staged edit.
use zonegit.Base.{
  [], ◌∷◌, codes, pos, bytes_eq, bytes_lt, digits, decimal, find_key, insert_on, sort_on, lookup,
  remove, assign,
}
use zonegit.Object.Sample.{toy_hash, mix}
use zonegit.Object.Tree.{
  entry_kind_is_valid, key_of, cmp_entry, sort_entries, is_sorted, first_duplicate, validate_entry,
  search_loop, sort_search, entry_reaches, get,
}
use zonegit.Object.Tree.Codec.{
  put_uvarint, uvarint_loop, uvarint, encode_entries, tree_payload, encode_tree, decode_tree,
}
use zonegit.Object.TreeOps.{
  validate_entries, replace_entry, has_entry, set_entry, set_leaf, set_subtree, load_tree, put_tree,
  walk_tree, load_chain, write_node, write_chain, load_root, update_tree,
}
use zonegit.Object.TreeOps.Clean.{clean_test}
use zonegit.Object.TreeOps.Entries.{hash_at}
use zonegit.Object.TreeOps.View.{view}
use zonegit.Zone.Sample.{toy_dns}
use zonegit.Base.{
  cut_last, ends_in, lower, to_lower, contains, cut_first, is_space, trim_left, trim_end,
  trim_space, fields_from, fields, has_suffix, trim_suffix, to_upper, split_from, split,
}
use zonegit.Base.{
  neg, difference, ◌+ℤ◌, scale, show_int, read_digits, read_magnitude, read_signed, parse_int,
}
use zonegit.Store.MemStore.{
  put_object, get_object, has_object, get_ref, cas_ref, delete_ref, has_prefix, refs_with_prefix,
  list_refs, read_reflog, append_reflog,
}
use zonegit.Store.Hash.{zero_hash, is_zero, encode_hex, decode_hex, string, short, parse_hash}
use zonegit.Object.{kind_is_valid, message, hash_of, encode_object, verify, encode_blob}
use zonegit.Object.Commit.{
  identity_string, two_digits, time_is_zero, format_offset, format_time, header, parent_lines,
  optional_header, end_message, commit_payload, encode_commit, parse_tz_offset, parse_time,
  parse_identity_line, is_one, read_version, read_header, read_line, read_headers, decode_commit,
}
use zonegit.Refs.{
  canon_zone, zone_sentinel, decode_legacy_ref_slot, branch_ref, tag_ref, parse_branch_target,
  trim_prefix, names_below, register_zone, list_branches, list_tags, list_zones, unregister_zone,
  is_zone_registered, create_branch, update_branch, delete_branch, get_branch, create_tag, get_tag,
  delete_tag, record_move, read_symref, read_head, write_symref, set_head,
}
use zonegit.Refs.Resolve.{
  ancestor_count, split_ancestor, branch_or_tag, head_commit, resolve_bare, resolve_qualified,
  resolve_base, first_of, walk_parents, resolve, resolve_in_zone,
}
use zonegit.Refs.Swaps.{held}
use zonegit.Zone.{
  canonical_name, be16, be32, be_value, write_rdatas, pack_rdata, same_header, pack_all,
  write_rrset, encode_rrset, unpack_rdata, read_rdatas, decode_rrset_body, decode_rrset, bump_one,
  bump_only, bump_soa_serial,
}
use zonegit.Merge.{
  reason_string, join_labels, path_fqdn, hash_eq, resolve_leaf, less_kn, least, cursor, min_key,
  advance, same_trees, conflict_key, sort_conflicts, note_conflict, keep_entry, merge_round,
  merge_loop, write_merged, merge_nodes, merge_trees_at, merge_trees,
}
use zonegit.History.Diff.{
  op_string, change_fqdn, change_key, next_entry, one_sided, emit_children, diff_both, diff_loop,
  emit_only_side, load_side, diff_walk, diff,
}
use zonegit.History.{log, is_not_found, blame}
use zonegit.Repo.{
  load_commit, member, unseen, enqueue, first_or_zero, ancestor_round, ancestor_loop, ancestor_set,
  search, merge_base, is_ancestor,
}
use zonegit.Repo.Staging.{
  same_key, unstage, stage, strip_zone_suffix, norm_fqdn, split_fqdn, staging_order, sorted_keys,
  staged_count, delete, add_zone, load_active, open_repo, point_head, init, switch_zone, full_owner,
  stage_blob, set_rrset,
}
use zonegit.Repo.Committing.{
  staged_edit, stages_soa, parent_tree, move_branch, plain_commit, bumped_payload, apply_edits,
  land_commit, stage_bumped, maybe_bump_soa, commit_on, commit,
}
use zonegit.Repo.Integrate.{
  tree_of, merge_message, inverse_leaf, inverse_edit, first_line, revert_message, first_parent_tree,
  forward, reset_hard, merge_three_way, merge_onto, merge_into, merge, revert_on, revert_reads,
  revert,
}
use zonegit.Object.Commit.{Identity, Time}
use zonegit.Store.MemStore.{new_store}
use zonegit.Repo.Staging.{Repo}

unfoldable pub repo_program : Unit {0}
unfolding cut_last ends_in lower to_lower contains cut_first is_space trim_left trim_end trim_space
    fields_from fields has_suffix trim_suffix to_upper split_from split neg difference ◌+ℤ◌ scale
    show_int read_digits read_magnitude read_signed parse_int put_object get_object has_object
    get_ref cas_ref delete_ref has_prefix refs_with_prefix list_refs read_reflog append_reflog
    zero_hash is_zero encode_hex decode_hex string short parse_hash kind_is_valid message hash_of
    encode_object verify encode_blob identity_string two_digits time_is_zero format_offset
    format_time header parent_lines optional_header end_message commit_payload encode_commit
    parse_tz_offset parse_time parse_identity_line is_one read_version read_header read_line
    read_headers decode_commit canon_zone zone_sentinel decode_legacy_ref_slot branch_ref tag_ref
    parse_branch_target trim_prefix names_below register_zone list_branches list_tags list_zones
    unregister_zone is_zone_registered create_branch update_branch delete_branch get_branch
    create_tag get_tag delete_tag record_move read_symref read_head write_symref set_head
    ancestor_count split_ancestor branch_or_tag head_commit resolve_bare resolve_qualified
    resolve_base first_of walk_parents resolve resolve_in_zone held canonical_name be16 be32
    be_value write_rdatas pack_rdata same_header pack_all write_rrset encode_rrset unpack_rdata
    read_rdatas decode_rrset_body decode_rrset bump_one bump_only bump_soa_serial reason_string
    join_labels path_fqdn hash_eq resolve_leaf less_kn least cursor min_key advance same_trees
    conflict_key sort_conflicts note_conflict keep_entry merge_round merge_loop write_merged
    merge_nodes merge_trees_at merge_trees op_string change_fqdn change_key next_entry one_sided
    emit_children diff_both diff_loop emit_only_side load_side diff_walk diff log is_not_found blame
    load_commit member unseen enqueue first_or_zero ancestor_round ancestor_loop ancestor_set search
    merge_base is_ancestor same_key unstage stage strip_zone_suffix norm_fqdn split_fqdn
    staging_order sorted_keys staged_count delete add_zone load_active open_repo point_head init
    switch_zone full_owner stage_blob set_rrset staged_edit stages_soa parent_tree move_branch
    plain_commit bumped_payload apply_edits land_commit stage_bumped maybe_bump_soa commit_on commit
    tree_of merge_message inverse_leaf inverse_edit first_line revert_message first_parent_tree
    forward reset_hard merge_three_way merge_onto merge_into merge revert_on revert_reads revert
    toy_hash mix bytes_eq bytes_lt digits decimal find_key insert_on sort_on lookup
    entry_kind_is_valid key_of cmp_entry sort_entries is_sorted first_duplicate validate_entry
    search_loop sort_search entry_reaches get put_uvarint uvarint_loop uvarint encode_entries
    tree_payload encode_tree decode_tree validate_entries replace_entry has_entry set_entry set_leaf
    set_subtree load_tree put_tree walk_tree load_chain write_node write_chain load_root update_tree
    clean_test hash_at view remove assign
repo_program = tt

abbrev pub empty_repo : Repo
empty_repo = record { storage = new_store; staging = []; active_zone = [] }

abbrev pub ready : Repo
ready = (init toy_hash (codes "foo.com.") empty_repo).1

abbrev pub staged : Repo
staged = (set_rrset toy_hash toy_dns (5 ∷ []) ready).1

abbrev pub ann : Identity
ann = record { name = codes "Ann"; email = codes "ann@foo.com" }

abbrev pub noon : Time
noon = record { unix = pos 5; offset = pos 0 }

abbrev pub committed : Repo
committed = (commit toy_hash toy_dns ann (codes "m") noon 5 staged).1
