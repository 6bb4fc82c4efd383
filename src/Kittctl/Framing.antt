-- ===== src/Kittctl/Framing.antt =====
-- Frames between the client and the daemon, in both directions.
use kitt_assistant.Base.{List, [], ◌∷◌, ◌++◌, ℕ}

-- A text as it is written to a socket.
abbrev pub line_of : List ℕ → List ℕ
line_of content = content ++ (b'\n' ∷ [])
