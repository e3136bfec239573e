-- ===== src/Storage/Memory.antt =====
-- An object store in memory, which behaves as the protocol wants.
use cultureshift.Base.{ℕ, ◌&&◌, List, Option, none, some, ◌==◌, arith, length, leb, if◌then◌else◌}
use cultureshift.Base.Result.{Result, ok, err}
use cultureshift.Contracts.{is_given}
use cultureshift.Storage.{
  Key, key_eq, ObjectError, not_found, failed, exists, ObjectStore, is_listed, Behaves,
}

abbrev pub Memory : Type 0
Memory = Key → Option (List ℕ)

abbrev pub read_object : Option (List ℕ) → ℕ → Result ObjectError (List ℕ)
read_object none max_bytes = err not_found
read_object (some content) max_bytes =
    if leb (length content) max_bytes then ok content else err failed

unfoldable pub memory : ObjectStore Memory
memory = record {
  put = λ k content create_only o.
      if create_only && is_given (o k)
      then (err exists, o)
      else (ok tt, λ j. if k == j then some content else o j);
  get = λ k max_bytes o. read_object (o k) max_bytes;
  delete = λ ks o. (ok (length ks), λ j. if is_listed j ks then none else o j);
}

pub memory-Behaves : Behaves memory
unfolding memory
memory-Behaves = record {
  get-put = λ k content create_only max_bytes o h l. ground arith;
  get-put_other = λ k j content create_only max_bytes o h. ground arith;
  get-delete_other = λ ks j max_bytes o h. ground arith;
}
