-- ===== src/Payload/Message.antt =====
-- The messages of an update payload, as far as payload.go reads them, and the choice of the
-- partition.
use magiskboot_go.Base.{
  ℕ, List, [], ◌∷◌, ◌++◌, Option, none, some, Bytes, codes, bytes_eq, if◌then◌else◌,
}
use magiskboot_go.Base.{Outcome, ret, fatal}

pub record Extent : Type 0 where
  pub start_block : ℕ
  pub num_blocks : ℕ

-- `InstallOperation`: the fields that are read. The type is the number of the enumeration; a field
-- that the message does not hold is 0.
pub record InstallOperation : Type 0 where
  pub type : ℕ
  pub data_offset : ℕ
  pub data_length : ℕ
  pub dst_extents : List Extent

pub record PartitionUpdate : Type 0 where
  pub partition_name : Bytes
  pub operations : List InstallOperation

pub record Manifest : Type 0 where
  pub block_size : Option ℕ
  pub minor_version : Option ℕ
  pub partitions : List PartitionUpdate

unfoldable pub get_block_size : Manifest → ℕ
get_block_size m = elim m.block_size [ none ↦ 4096 | some n ↦ n ]

unfoldable pub get_minor_version : Manifest → ℕ
get_minor_version m = elim m.minor_version [ none ↦ 0 | some n ↦ n ]

-- The last partition of a name, as the loops without a `break` find it, and the first.
unfoldable pub last_named :
    Bytes → List PartitionUpdate → Option PartitionUpdate → Option PartitionUpdate
unfolding bytes_eq
last_named name [] found = found
last_named name (p ∷ ps) found =
    last_named name ps (if bytes_eq p.partition_name name then some p else found)

unfoldable pub first_named : Bytes → List PartitionUpdate → Option PartitionUpdate
unfolding bytes_eq
first_named name [] = none
first_named name (p ∷ ps) =
    let rest = first_named name ps in if bytes_eq p.partition_name name then some p else rest

abbrev or_fatal : Option PartitionUpdate → Outcome PartitionUpdate
or_fatal none = fatal
or_fatal (some p) = ret p

-- The partition that is asked for, or `init_boot` and else `boot`.
unfoldable pub choose_partition : Bytes → List PartitionUpdate → Outcome PartitionUpdate
unfolding last_named first_named
choose_partition [] ps = elim (last_named (codes "init_boot") ps none) [
  | some p ↦ ret p
  | none ↦ or_fatal (last_named (codes "boot") ps none)
]
choose_partition (c ∷ name) ps = or_fatal (first_named (c ∷ name) ps)

unfoldable pub out_name : Bytes → PartitionUpdate → Bytes
out_name [] p = p.partition_name ++ codes ".img"
out_name (c ∷ path) p = c ∷ path
