-- ===== src/Ide/Poll.antt =====
-- wait_for_controller of drivers/ide.c: what it returns.
use simplix.Base.{
  ℕ, zero, suc, ◌+◌, ◌-◌, ◌%◌, ◌^◌, ◌==◌, if◌then◌else◌, ◌<◌, ◌≡◌, ◌≢◌, refl, ap, arith, bit_and,
}
use simplix.Ide.{Machine, iobase, ata_status, poll, polls, wait_for_controller}

-- The machine after a number of reads of a port, and what the next read returns.
unfoldable pub after_reads : {W : Type 0} → Machine W → ℕ → ℕ → W → W
after_reads m port zero w = w
after_reads m port (suc n) w = after_reads m port n (m.inb port w).1

abbrev pub nth_read : {W : Type 0} → Machine W → ℕ → ℕ → W → ℕ
nth_read m port n w = (m.inb port (after_reads m port n w)).0

-- The status of the controller in a poll, under the mask.
abbrev pub polled : {W : Type 0} → Machine W → ℕ → ℕ → W → ℕ → ℕ
polled m controller mask w n = bit_and (nth_read m (iobase controller + ata_status) n w) mask

module _ {W : Type 0} (m : Machine W) (port mask value : ℕ) where
  poll-hit :
      (timeout k : ℕ) (w : W)
      → k < timeout
      → ((i : ℕ) → i < k → bit_and (nth_read m port i w) mask ≢ value)
      → bit_and (nth_read m port k w) mask ≡ value
      → (poll m timeout port mask value w).0 ≡ timeout - k
  unfolding poll after_reads
  poll-hit zero k w l before at = omega arith
  poll-hit (suc timeout) zero w l before at = ground arith
  poll-hit (suc timeout) (suc k) w l before at =
      let rest =
        poll-hit timeout k (m.inb port w).1 (omega arith) (λ i i_lt. before (suc i) (omega arith))
          at in
      let first : bit_and (m.inb port w).0 mask ≢ value = before 0 (omega arith) in ground arith

  poll-miss :
      (timeout : ℕ) (w : W)
      → ((i : ℕ) → i < timeout → bit_and (nth_read m port i w) mask ≢ value)
      → (poll m timeout port mask value w).0 ≡ 0
  unfolding poll after_reads
  poll-miss zero w before = refl
  poll-miss (suc timeout) w before =
      let rest = poll-miss timeout (m.inb port w).1 (λ i i_lt. before (suc i) (omega arith)) in
      let first : bit_and (m.inb port w).0 mask ≢ value = before 0 (omega arith) in ground arith

-- A timeout allows as many polls as it says, and a timeout of 0 allows 2 ^ 32. A controller whose
-- status has the value under the mask in poll `k` of these, counted from 0, and not before, makes the
-- routine return the number of polls less `k`, modulo 256; a controller whose status has it in no
-- poll makes it return 0.
pub wait_for_controller-left :
    {W : Type 0} (m : Machine W) (controller mask value timeout : ℕ) (w : W)
    → let allowed = if timeout == 0 then 2 ^ 32 else timeout in
      ((k : ℕ)
        → k < allowed
        → ((i : ℕ) → i < k → polled m controller mask w i ≢ value)
        → polled m controller mask w k ≡ value
        → (wait_for_controller m controller mask value timeout w).0 ≡ (allowed - k) % 256)
      × (((i : ℕ) → i < allowed → polled m controller mask w i ≢ value)
          → (wait_for_controller m controller mask value timeout w).0 ≡ 0)
unfolding wait_for_controller
wait_for_controller-left m controller mask value timeout w =
    let port = iobase controller + ata_status in
    (
      λ k l before at.
          ap (λ n. n % 256) (poll-hit m port mask value (polls timeout) k w l before at),
      λ before. ap (λ n. n % 256) (poll-miss m port mask value (polls timeout) w before),
    )
