-- ===== src/Stream/Played.antt =====
-- Streaming a slot and uploading it agree on its colour.
use plasma_trim_cli.Base.{
  ℕ, ◌+◌, ◌-◌, ◌*◌, ◌/◌, ◌%◌, ◌<◌, ◌≡◌, refl, sym, ap, ◌∙◌, inl, inr, false, some, List, [], ◌∷◌,
  ◌++◌, arith, Bool-cases, length, get_or, replicate, codes, c_string, same_text,
}
use plasma_trim_cli.Hex.{digit_value}
use plasma_trim_cli.Hex.Laws.{IsHex}
use plasma_trim_cli.Color.{make_color, make_human_color}
use plasma_trim_cli.Color.Squeeze.{squeeze}
use plasma_trim_cli.Machine.{Machine, World, ◌>>◌, delay}
use plasma_trim_cli.Machine.Laws.{Returned, Returned->>=, Returned_map, IsResponsive}
use plasma_trim_cli.Timing.{fade, fade_pace, hold}
use plasma_trim_cli.Timing.Fade.{IsFaded, fade-IsFaded, shown_rows}
use plasma_trim_cli.Sequence.{UploadState, color_column}
use plasma_trim_cli.Stream.{Slots, slot_column, play_slot}
use plasma_trim_cli.Stream.Shown.{
  column_digit, digits, slot_column-table, color_column-table, groups, behind, human-groups,
  groups_nonzero, length-groups, squeezed, length-digits, short-IsColor, stored_byte, shown_byte,
}

-- A slot that was played: the colours that were shown for its time, the last of which has for each
-- half byte of `stored` a byte with that digit twice.
pub record IsPlayed (handle brightness : ℕ) (time stored : List ℕ) {m : Machine} (w v : World m)
    : Type 0 where
  pub rows : List (List ℕ)
  pub counted : length rows ≡ (fade_pace (c_string time)).0
  pub last :
      (k : ℕ)
      → k < 12
      → (get_or (get_or rows ((fade_pace (c_string time)).0 - 1) []) (k * 2) 0
          ≡ 17 * (get_or stored k 0 / 16))
        × (get_or (get_or rows ((fade_pace (c_string time)).0 - 1) []) (k * 2 + 1) 0
            ≡ 17 * (get_or stored k 0 % 16))
  pub sent : v.sent ≡ shown_rows handle brightness rows ((handle, 0x01 ∷ replicate 31 0) ∷ w.sent)

module _ {m : Machine} (responsive : IsResponsive m) where
  hold-sent : (time : List ℕ) (w : World m) → Returned (hold time w) (λ _ v. v.sent ≡ w.sent)
  unfolding hold delay
  hold-sent time w = elim (Bool-cases (same_text time (codes "0"))) [
    | inl e ↦ rw e refl
    | inr e ↦ rw e refl
  ]

  play_digits :
      (shade : ℕ → ℕ → ℕ → ℕ → ℕ) (handle brightness : ℕ) (d : ℕ → ℕ) (stored time held : List ℕ)
      (w : World m)
      → ((k : ℕ) → k < 24 → IsHex (d k))
      → ((k : ℕ)
          → k < 12
          → (get_or stored k 0 / 16 ≡ digit_value (d (k * 2)))
            × (get_or stored k 0 % 16 ≡ digit_value (d (k * 2 + 1))))
      → Returned
          ((fade shade handle (make_human_color (digits d ++ (0 ∷ []))) time brightness
              >> hold held)
            w)
          (λ _ v. IsPlayed handle brightness time stored w v)
  play_digits shade handle brightness d stored time held w hex kept =
      let text = groups d 4 0 in
      rw (human-groups d) (
        Returned->>= (fade shade handle (text ++ (0 ∷ behind d)) time brightness) (λ _. hold held) w
          _ _
          (fade-IsFaded responsive shade handle brightness text (behind d) time w
            (groups_nonzero d hex 4 0 (omega arith)) (omega (arith, length-groups d hex))
            (omega (arith, ap length (squeezed d hex), length-digits d hex)))
          (λ _ v f. Returned_map (hold held v) _ _ (hold-sent held v) (λ _ x e. played f e)))
    where
      played :
          {v x : World m}
          → IsFaded responsive handle brightness
              (squeeze (groups d 4 0))
              (fade_pace (c_string time))
              w
              v
          → x.sent ≡ v.sent
          → IsPlayed handle brightness time stored w x
      played f e =
          let row = get_or f.rows ((fade_pace (c_string time)).0 - 1) [] in
          let shown =
            λ (k : ℕ) (h : k < 24). shown_byte d hex row k h (rw (← squeezed d hex) (f.last k h)) in
          record {
            rows = f.rows;
            counted = f.counted;
            last = λ k h. (
              shown (k * 2) (omega arith) ∙ ap (λ t. 17 * t) (sym (kept k h).0),
              shown (k * 2 + 1) (omega arith) ∙ ap (λ t. 17 * t) (sym (kept k h).1),
            );
            sent = e ∙ f.sent;
          }

  -- A line whose colour has 24 hexadecimal digits is streamed as it is uploaded: upload converts its
  -- colour column to bytes, and streamData, for a slot that was read from the same columns, comes back
  -- if the devices answer and shows as many colours as the fade time names, the last of which has each
  -- of the digits that upload stores, twice in a byte.
  pub play_slot-IsPlayed :
      (shade : ℕ → ℕ → ℕ → ℕ → ℕ) (handle brightness : ℕ) (line : List ℕ) (u : UploadState)
      (s : Slots) (i : ℕ) (w : World m)
      → ((k : ℕ) → k < 24 → IsHex (column_digit line u.device_num u.offset k))
      → get_or s.slot i [] ≡ slot_column line u.device_num u.offset
      → (stored : List ℕ) × (stripped : List ℕ) × (make_color (color_column line u) false
          ≡ some (stored, stripped))
        × Returned
            (play_slot shade handle brightness s i w)
            (λ _ v. IsPlayed handle brightness (get_or s.fade_time i []) stored w v)
  unfolding play_slot
  play_slot-IsPlayed shade handle brightness line u s i w hex read =
      let d = column_digit line u.device_num u.offset in
      let short = short-IsColor d hex in
      (
        short.buf,
        short.stripped,
        rw (color_column-table line u) short.returns,
        rw (read, slot_column-table line u.device_num u.offset)
            (play_digits shade handle brightness d short.buf (get_or s.fade_time i [])
              (c_string (get_or s.hold_time i [])) w hex
              (λ k h. stored_byte d hex short.buf k h (short.bytes k (omega arith)))),
      )
