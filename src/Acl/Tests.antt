-- ===== src/Acl/Tests.antt =====
-- Runs of the two directions.
use hoit_f2fs.Base.{some, none, ℕ, ◌≡◌, true, List, [], ◌∷◌, ◌==◌, if◌then◌else◌, inr, refl, arith}
use hoit_f2fs.Base.Arrays.{Array}
use hoit_f2fs.Acl.{
  Tags, Ids, AclEntry, acl, value, einval, acl_size, acl_count, acl_to_disk, acl_from_disk,
  write_entries, kind, width, le16, le32, read_entries, read_id,
}
use hoit_f2fs.Acl.RoundTrip.{IsAcl, acl_from_disk-acl_to_disk}

abbrev tags : Tags
tags = record { user_obj = 1; user = 2; group_obj = 4; group = 8; mask = 16; other = 32 }

-- Ids that are their own numbers.
abbrev plain_ids : Ids
plain_ids = record {
  from_kuid = λ k. k;
  make_kuid = λ k. k;
  from_kgid = λ k. k;
  make_kgid = λ k. k;
  kuid_small = λ k small. small;
  kgid_small = λ k small. small;
  kuid_back = λ k small. refl;
  kgid_back = λ k small. refl;
}

abbrev entry : ℕ → ℕ → ℕ → AclEntry
entry tag perm id = record { e_tag = tag; e_perm = perm; e_id = id }

-- Owner, a user by name, group, mask and others.
abbrev one_named : List AclEntry
one_named = entry 1 7 0 ∷ entry 2 6 1000 ∷ entry 4 5 0 ∷ entry 16 7 0 ∷ entry 32 4 0 ∷ []

one_named-IsAcl : IsAcl tags 0 one_named
unfolding kind
one_named-IsAcl = record {
  entries = omega arith;
  some_entries = omega arith;
  small = omega arith;
  base = inr refl;
}

acl_from_disk-acl_to_disk_example :
    (mem : Array ℕ) × (acl_to_disk tags plain_ids true (λ p. 255) one_named
      ≡ value mem (acl_size 5))
    × (acl_from_disk tags plain_ids true 0 mem (acl_size 5) ≡ acl one_named)
acl_from_disk-acl_to_disk_example =
    acl_from_disk-acl_to_disk tags plain_ids 0 (λ p. 255) one_named one_named-IsAcl

-- A value of 28 bytes has five entries, and one of 29 none.
sizes : (acl_size 5 ≡ 28) × (acl_count 28 ≡ some 5) × (acl_count 29 ≡ none)
unfolding acl_size acl_count
sizes = (refl, refl, refl)

-- A tag that is not known.
unknown_tag : acl_to_disk tags plain_ids true (λ p. 0) (entry 3 7 0 ∷ []) ≡ einval
unfolding acl_to_disk write_entries kind
unknown_tag = refl

-- The header, and an owner alone.
owner_read :
    acl_from_disk tags plain_ids true 0 (λ p. if p == 0 then 1 else if p == 4 then 1 else 0) 8
    ≡ acl (entry 1 0 0 ∷ [])
unfolding acl_from_disk acl_count le32 le16 read_entries read_id kind width
owner_read = refl
