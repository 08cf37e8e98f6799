-- ===== src/Object.antt =====
-- pkg/object/object.go and blob.go: content-addressed objects. SHA-256 is the parameter `sha256`.
pub mod Header
pub mod Tree
pub mod TreeOps
pub mod Commit
pub mod Sample
mod Tests
use zonegit.Base.{
  ℕ, ◌≡◌, Bool, true, false, ◌||◌, List, [], ◌∷◌, ◌++◌, length, Bytes, bytes_eq, if◌then◌else◌,
  codes, Result, ok, err, Error, decimal,
}
use zonegit.Store.Hash.{Hash}
use zonegit.Store.MemStore.{Object}

-- `Kind` is a Go string.
abbrev pub Kind : Type 0
Kind = Bytes

abbrev pub kind_blob : Kind
kind_blob = codes "blob"

abbrev pub kind_tree : Kind
kind_tree = codes "tree"

abbrev pub kind_commit : Kind
kind_commit = codes "commit"

abbrev pub kind_tag : Kind
kind_tag = codes "tag"

abbrev pub kind_symref : Kind
kind_symref = codes "symref"

unfoldable pub kind_is_valid : Kind → Bool
kind_is_valid k =
    bytes_eq k kind_blob
    || bytes_eq k kind_tree
    || bytes_eq k kind_commit
    || bytes_eq k kind_tag
    || bytes_eq k kind_symref

-- `"<kind> <decimal-len>\x00" || payload`
unfoldable pub message : Kind → Bytes → Bytes
message kind payload = kind ++ (32 ∷ (decimal (length payload) ++ (0 ∷ payload)))

module _ (sha256 : Bytes → Hash) where
  unfoldable pub hash_of : Kind → Bytes → Hash
  hash_of kind payload = sha256 (message kind payload)

  unfoldable pub encode_object : Kind → Bytes → Hash × Object
  encode_object kind payload = (hash_of kind payload, record { kind = kind; payload = payload })

  unfoldable pub verify : Hash → Object → Result (Unit {0})
  verify h obj =
      if kind_is_valid obj.kind
      then (if bytes_eq (hash_of obj.kind obj.payload) h then ok tt else err Error.corrupt)
      else err Error.invalid_object

  -- `Blob.Encode`
  unfoldable pub encode_blob : Bytes → Hash × Object
  unfolding encode_object
  encode_blob payload = encode_object kind_blob payload
