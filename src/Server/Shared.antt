-- ===== src/Server/Shared.antt =====
-- What the threads of one command leave of the commands that they share.
use plasma_trim_cli.Base.{
  ℕ, ◌≡◌, refl, sym, ap, ◌∙◌, Bool, true, false, ◌&&◌, ◌||◌, Option, none, some, List, [], ◌∷◌,
  ◌++◌, arith, ltb, leb, if◌then◌else◌, get_or, set, All, get_or-set_ne, codes,
}
use plasma_trim_cli.Color.{make_color}
use plasma_trim_cli.Color.Memory.{IsPrintable, IsText, printable_nonzero, make_color-IsText}
use plasma_trim_cli.Server.State.{DeviceState, Instance, command_at, is_command, is_missing}
use plasma_trim_cli.Server.Run.{is_permitted}
use plasma_trim_cli.Server.Notified.{IsArgument}
use plasma_trim_cli.Server.Command.{stripped, left_commands}

-- The argument of a command, behind its word, is a text below 256 printable characters.
abbrev pub HasText : List (List ℕ) → Type 0
HasText commands = IsText 255 (get_or commands 2 [])

pub text-IsArgument : (i : Instance) → HasText i.commands → IsArgument i
text-IsArgument i a = record {
  text = a.text;
  tail = a.tail;
  memory = a.stands;
  nonzero = printable_nonzero a.text a.printable;
  short = omega (arith, a.fits);
  missing = λ h. empty a.text a.printable (rw a.stands at h);
}
  where
    empty :
        (text : List ℕ)
        → All IsPrintable text
        → (let c = get_or (text ++ (0 ∷ a.tail)) 0 0 in ltb c 0x20 || leb 128 c) ≡ true
        → text ≡ []
    empty [] p h = refl
    empty (c ∷ text) p h = absurd (ground (arith, p.0))

stripped-IsText : (memory : List ℕ) → IsText 255 memory → IsText 255 (stripped memory)
stripped-IsText memory a = go (make_color memory true) (λ buf left e.
    let of_text = ap (λ x. make_color x true) (sym a.stands) ∙ e in
    let t =
      make_color-IsText true a.text a.tail buf left a.printable (omega (arith, a.fits)) of_text in
    record {
      text = t.text;
      tail = t.tail;
      stands = t.stands;
      printable = t.printable;
      fits = omega (arith, t.fits, a.fits);
    })
  where
    go :
        (r : Option (List ℕ × List ℕ))
        → ((buf left : List ℕ) → r ≡ some (buf, left) → IsText 255 left)
        → IsText 255 (elim r as (λ _. List ℕ) [ none ↦ memory | some s ↦ s.1 ])
    go none h = a
    go (some (buf, left)) h = h buf left refl

set-HasText :
    (commands : List (List ℕ)) (memory : List ℕ)
    → HasText commands
    → IsText 255 memory
    → HasText (set commands 2 memory)
set-HasText [] memory a t = a
set-HasText (x ∷ []) memory a t = a
set-HasText (x ∷ y ∷ []) memory a t = a
set-HasText (x ∷ y ∷ z ∷ zs) memory a t = t

-- The word of the command stays.
set-word :
    (commands : List (List ℕ)) (memory : List ℕ)
    → get_or (set commands 2 memory) 1 [] ≡ get_or commands 1 []
set-word commands memory = get_or-set_ne commands 2 1 memory [] (λ e. cc)

-- Behind a thread the shared commands have such a text again, and the word is the same.
pub left_commands-HasText :
    (i : Instance) (d : DeviceState)
    → HasText i.commands
    → HasText (left_commands i d) × (get_or (left_commands i d) 1 [] ≡ get_or i.commands 1 [])
unfolding left_commands
left_commands-HasText i d a =
    left (is_permitted i d && is_command i 1 (codes "color")) (is_missing i 2)
      (is_permitted i d && is_command i 1 (codes "fade"))
  where
    once : IsText 255 (stripped (command_at i 2))
    once = stripped-IsText (command_at i 2) a

    set_to :
        (memory : List ℕ)
        → IsText 255 memory
        → HasText (set i.commands 2 memory)
          × (get_or (set i.commands 2 memory) 1 [] ≡ get_or i.commands 1 [])
    set_to memory t = (set-HasText i.commands memory a t, set-word i.commands memory)

    left :
        (color missing fade : Bool)
        → let commands =
            if color
            then (if missing
                then set i.commands 2 (stripped (stripped (command_at i 2)))
                else set i.commands 2 (stripped (command_at i 2)))
            else if fade
            then set i.commands 2 (stripped (command_at i 2))
            else i.commands in
          HasText commands × (get_or commands 1 [] ≡ get_or i.commands 1 [])
    left true true fade = set_to _ (stripped-IsText _ once)
    left true false fade = set_to _ once
    left false missing true = set_to _ once
    left false missing false = (a, refl)
