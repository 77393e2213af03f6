-- ===== src/Help/Server.antt =====
-- The texts of `ptrim-server --help`.
use plasma_trim_cli.Base.{ℕ, List, [], ◌∷◌, codes}

unfoldable pub server_texts : List (ℕ × List ℕ)
server_texts =
    (0, codes "")
    ∷ (0, codes "SYNOPSIS")
    ∷ (1, codes "ptrim-server --help")
    ∷ (1, codes "ptrim-server --version")
    ∷ (1, codes "ptrim-server [port] <security-code>")
    ∷ (0, codes "")
    ∷ (0, codes "DESCRIPTION")
    ∷ (1, codes "ptrim-server will start a ptrim shell server on port which requires security-code")
    ∷ (0, codes "")
    ∷ (0, codes "OPTIONS")
    ∷ (1, codes "port")
    ∷ (2, codes "The TCP port to listen on, default 26163")
    ∷ (0, codes "")
    ∷ (1, codes "security-code")
    ∷ (
      2,
      codes
          "The security code that a client must have to connect. Much like a pin or password. Special characters must be escaped.",
    )
    ∷ []
