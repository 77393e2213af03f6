-- ===== src/Examples/Texts.antt =====
-- Texts to try the theorems on.
use plasma_trim_cli.Base.{arith, codes}
use plasma_trim_cli.Machine.Laws.{Returned}
use plasma_trim_cli.Machine.Queue.{echo_world}
use plasma_trim_cli.Text.{format_print}
use plasma_trim_cli.Text.Print.{IsPrinted, format_print-IsPrinted}

format_print-IsPrinted_example :
    Returned
      (format_print 12 2 (codes "one line more") echo_world)
      (λ _ v. IsPrinted 12 2 (codes "one line more") echo_world v)
format_print-IsPrinted_example =
    format_print-IsPrinted 12 2 (codes "one line more") echo_world (omega arith)
