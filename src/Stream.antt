-- ===== src/Stream.antt =====
-- streamData of src/ptrim-lib.cc: the sequence of a file is played by software. Read takes its slots
-- out of the file.
mod Read
pub mod Array
pub mod Prologue
pub mod Shown
pub mod Played
pub mod Saved
unfoldable pub use Read.*
use plasma_trim_cli.Base.{
  ℕ, zero, suc, ◌+◌, ◌-◌, ◌*◌, ◌%◌, Bool, true, false, not, ◌&&◌, ◌||◌, Option, none, some, List,
  [], ◌∷◌, ◌++◌, ltb, ◌==◌, if◌then◌else◌, length, get_or, set, drop, replicate, for_by, u8, codes,
  c_string, same_text,
}
use plasma_trim_cli.Decimal.{decimal}
use plasma_trim_cli.Color.{make_human_color}
use plasma_trim_cli.Machine.{
  Machine, World, M, ◌>>=◌, ◌>>◌, pure, stuck, or_stuck, when, delay, printf, fprintf_stderr,
  uninitialised,
}
use plasma_trim_cli.Files.{Disk, fgets_lines}
use plasma_trim_cli.Sequence.{
  crlf, simple_version, multiple_version, two_digits, wrap_device, read_slots,
}
use plasma_trim_cli.Timing.{fade, hold}

module _ {m : Machine} where
  -- `while (running_threads > limit) delay (1); delay (5);` where no other thread runs: if it waits,
  -- it waits for ever.
  unfoldable pub sync : ℕ → ℕ → M m (Unit {0})
  sync limit running_threads = if ltb limit running_threads then stuck else delay 5

  -- The arithmetic of fade on `double` is `shade`.
  unfoldable pub play_slot : (ℕ → ℕ → ℕ → ℕ → ℕ) → ℕ → ℕ → Slots → ℕ → M m (Unit {0})
  play_slot shade handle brightness s i = do
    fade shade handle (make_human_color (get_or s.slot i [])) (get_or s.fade_time i []) brightness
    hold (c_string (get_or s.hold_time i []))

  -- `for (i = 0; i < loopStart; i++)`, on the rounds that are left.
  unfoldable pub play_intro : (ℕ → ℕ → ℕ → ℕ → ℕ) → ℕ → ℕ → Slots → ℕ → ℕ → M m (Unit {0})
  play_intro shade handle brightness s zero i = pure tt
  play_intro shade handle brightness s (suc n) i = do
    play_slot shade handle brightness s i
    play_intro shade handle brightness s n (suc i)

  -- `for (i = loopStart; i < activeSlots; i++)`, on the rounds that are left.
  unfoldable pub play_loop :
      (ℕ → ℕ → ℕ → ℕ → ℕ) → ℕ → ℕ → ℕ → StreamHead → Slots → ℕ → ℕ → ℕ → M m (Unit {0})
  play_loop shade handle brightness total_devices h s running_threads zero i = pure tt
  play_loop shade handle brightness total_devices h s running_threads (suc n) i = do
    play_slot shade handle brightness s i
    when (is_sync_slot h i) (sync total_devices (u8 (running_threads + 255)))
    play_loop shade handle brightness total_devices h s running_threads n (suc i)

  -- `while (1)`, as many rounds of it.
  unfoldable pub play_rounds :
      (ℕ → ℕ → ℕ → ℕ → ℕ) → ℕ → ℕ → ℕ → StreamHead → Slots → ℕ → ℕ → M m (Unit {0})
  play_rounds shade handle brightness total_devices h s running_threads zero = pure tt
  play_rounds shade handle brightness total_devices h s running_threads (suc rounds) = do
    sync 0 running_threads
    play_loop shade handle brightness total_devices h s (u8 (running_threads + 2))
        (h.active_slots - h.loop_start) h.loop_start
    play_rounds shade handle brightness total_devices h s running_threads rounds

  -- What is done with the head of a file and the lines behind it.
  unfoldable pub stream_lines :
      (ℕ → ℕ → ℕ → ℕ → ℕ)
      → ℕ
      → ℕ
      → ℕ
      → ℕ
      → ℕ
      → ℕ
      → StreamHead
      → List ℕ
      → List (List ℕ)
      → M m (Unit {0})
  stream_lines shade rounds handle brightness id total_devices running_threads h buffer lines = do
    fprintf_stderr
        (stream_notices id total_devices (if h.active_devices == 0 then 1 else h.active_devices))
    let s = read_slots_lines h 0 buffer lines (blank_slots h.active_slots)
    sync 0 (u8 (running_threads + 255))
    when (ltb 0 h.active_slots) (do
      play_intro shade handle brightness s h.loop_start 0
      play_rounds shade handle brightness total_devices h s (u8 (running_threads + 255)) rounds)

module _ {m : Machine} (disk : Disk m) where
  -- streamData for a device that is the only one, as far as `rounds` rounds of its endless loop.
  -- `running_threads` is 0 when the program starts. The buffer holds 884 bytes.
  unfoldable pub stream_data : (ℕ → ℕ → ℕ → ℕ → ℕ) → ℕ → ℕ → List ℕ → ℕ → ℕ → ℕ → ℕ → M m (Unit {0})
  stream_data shade rounds handle filename brightness id total_devices running_threads w =
      elim (disk.read_file filename w.outside) [
        | none ↦ printf (filename ++ (codes " did not open." ++ crlf)) w
        | some bytes ↦
            (do
              stale ← uninitialised
              head ←
                  or_stuck
                    (read_head id stream_init (replicate 884 (u8 stale)) (fgets_lines 883 bytes))
              elim head [
                | unknown ↦ fprintf_stderr (codes "Unknown file format." ++ crlf)
                | known h buffer lines ↦
                    stream_lines shade rounds handle brightness id total_devices
                      (u8 (running_threads + 1)) h buffer lines
              ])
              w
      ]
