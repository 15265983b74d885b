-- ===== src/Dir/Room.antt =====
-- `f2fs_room_for_filename` finds the first place with room.
use hoit_f2fs.Base.{
  ℕ, zero, suc, ◌+◌, ◌-◌, ◌≤◌, ◌<◌, ◌≡◌, ◌⊎◌, Bool, false, some, leb, refl, arith, inl, inr,
  Bool-cases,
}
use hoit_f2fs.Base.Arrays.{Array}
use hoit_f2fs.Base.BitSearch.{BitSearch}
use hoit_f2fs.Dir.{room_from, room_for_filename}

module _ (b : BitSearch) (bitmap : Array Bool) (slots max_slots : ℕ) where
  -- As many free slots from `q` on as the name takes.
  pub record IsRoom (q : ℕ) : Type 0 where
    pub fits : q + slots ≤ max_slots
    pub clear : (i : ℕ) → q ≤ i → i < q + slots → bitmap i ≡ false

  -- The first room, or `max_slots`.
  pub record IsFirstRoom (pos : ℕ) : Type 0 where
    pub room : (pos ≡ max_slots) ⊎ IsRoom pos
    pub first : (q : ℕ) → IsRoom q → pos ≤ q

  module _ (some_slots : 0 < slots) where
    module _ (bit_start : ℕ) (later : (q : ℕ) → IsRoom q → bit_start ≤ q) where
      abbrev zero_start : ℕ
      zero_start = b.find_next_zero_bit bitmap max_slots bit_start

      abbrev zero_end : ℕ
      zero_end = b.find_next_bit bitmap max_slots zero_start

      -- No room begins before the first free slot,
      from_zero : (q : ℕ) → IsRoom q → zero_start ≤ q
      from_zero q r =
          let here = r.clear q (omega arith) (omega arith) in
          let lo = later q r in
          ground (arith, here, b.next_zero_bit.first bitmap max_slots bit_start q)

      found_room : zero_start < max_slots → slots ≤ zero_end - zero_start → IsFirstRoom zero_start
      found_room inside wide = record {
        room = inr (record {
          fits = omega (arith, b.next_bit.within bitmap max_slots zero_start);
          clear =
              λ i lo hi. b.next_bit.first bitmap max_slots zero_start i lo (omega (arith, wide));
        });
        first = from_zero;
      }

      no_room_left : max_slots ≤ zero_start → IsFirstRoom max_slots
      no_room_left end = record {
        room = inl refl;
        first = λ q r. omega (arith, end, from_zero q r);
      }

      -- nor in a run that is too short.
      behind_run :
          zero_start < max_slots
          → zero_end - zero_start < slots
          → (q : ℕ) → IsRoom q
          → zero_end + 1 ≤ q
      behind_run inside narrow q r =
          let lo = from_zero q r in
          let fits = r.fits in
          let within = b.next_bit.within bitmap max_slots zero_start in
          let stop = b.next_bit.found bitmap max_slots zero_start in
          let at_end = r.clear zero_end in ground (arith, stop, at_end)

    room_from-IsFirstRoom :
        (rounds bit_start : ℕ)
        → ((q : ℕ) → IsRoom q → bit_start ≤ q)
        → max_slots + 1 ≤ rounds + bit_start
        → bit_start ≤ max_slots
        → (pos : ℕ) × (room_from b bitmap slots max_slots rounds bit_start ≡ some pos)
          × IsFirstRoom pos
    unfolding room_from
    room_from-IsFirstRoom zero bit_start later enough near = absurd (omega arith)
    room_from-IsFirstRoom (suc rounds) bit_start later enough near =
        let start = zero_start bit_start later in
        let end = zero_end bit_start later in
        elim (Bool-cases (leb max_slots start)) [
          | inl full ↦ (max_slots, rw full refl, no_room_left bit_start later (ground arith))
          | inr some_zero ↦
              let inside : start < max_slots = ground arith in
              let from = b.next_zero_bit.found bitmap max_slots bit_start inside in
              elim (Bool-cases (leb slots (end - start))) [
                | inl wide ↦ (
                  start,
                  rw some_zero (rw wide refl),
                  found_room bit_start later inside (ground arith),
                )
                | inr narrow ↦
                    let behind = behind_run bit_start later inside (ground arith) in
                    elim (Bool-cases (leb max_slots (end + 1))) [
                      | inl last ↦ (
                        max_slots,
                        rw some_zero (rw narrow (rw last refl)),
                        record { room = inl refl; first = λ q r. ground (arith, behind q r) },
                      )
                      | inr more ↦
                          let stop = b.next_bit.found bitmap max_slots start (ground arith) in
                          let (pos, e, k) =
                            room_from-IsFirstRoom rounds (end + 1) behind
                              (omega (arith, from, stop)) (ground arith) in
                          (pos, rw some_zero (rw narrow (rw more e)), k)
                    ]
              ]
        ]

    -- For a name of at least one slot, `f2fs_room_for_filename` ends. It returns the first place from
    -- which on as many slots are free as the name takes, or `max_slots` where there is none.
    pub room_for_filename-IsFirstRoom :
        (pos : ℕ) × (room_for_filename b bitmap slots max_slots ≡ some pos) × IsFirstRoom pos
    unfolding room_for_filename
    room_for_filename-IsFirstRoom =
        room_from-IsFirstRoom (max_slots + 1) 0 (λ q r. omega arith) (omega arith) (omega arith)
