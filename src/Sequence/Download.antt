-- ===== src/Sequence/Download.antt =====
-- download
use plasma_trim_cli.Base.{ℕ, zero, suc, ◌-◌, Bool, List, [], ◌∷◌, ◌++◌, if◌then◌else◌, set, codes}
use plasma_trim_cli.Decimal.{decimal_padded}
use plasma_trim_cli.Machine.{Machine, M, pure, ◌>>=◌}
use plasma_trim_cli.Device.{command, query, get_active_slots}
use plasma_trim_cli.Sequence.Line.{crlf, title_line, simple_version, slot_line, black_line}

-- The request for slot `i`.
abbrev pub slot_request : ℕ → List ℕ
slot_request i = set (command 0x07) 1 i

-- `for (i = slotsToGet; i < 76; i++)`
unfoldable pub black_lines : ℕ → ℕ → List (List ℕ)
black_lines zero i = []
black_lines (suc n) i = black_line i ∷ black_lines n (suc i)

module _ {m : Machine} where
  -- `for (i = 0; i < slotsToGet; i++)`, on the rounds that are left.
  unfoldable pub fetch_slots : ℕ → ℕ → ℕ → M m (List (List ℕ))
  fetch_slots handle zero i = pure []
  fetch_slots handle (suc n) i = do
    cmd ← query handle (slot_request i)
    lines ← fetch_slots handle n (suc i)
    pure (slot_line i cmd ∷ lines)

  -- The lines that download leaves in `fileData`; all lines behind them are empty.
  unfoldable pub download : ℕ → Bool → M m (List (List ℕ))
  unfolding fetch_slots black_lines
  download handle blank = do
    active ← get_active_slots handle
    let slots_to_get = if blank then active else 76
    fetched ← fetch_slots handle slots_to_get 0
    pure (
        (title_line ++ crlf)
        ∷ (simple_version ++ crlf)
        ∷ (codes "Active Slots: " ++ (decimal_padded 2 active ++ crlf))
        ∷ (fetched ++ (black_lines (76 - slots_to_get) slots_to_get ++ (crlf ∷ []))))
