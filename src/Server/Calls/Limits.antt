-- ===== src/Server/Calls/Limits.antt =====
-- How often an enrollment token is used.
use portapixel.Prelude.{AllIn, ◌≡◌, true, ◌||◌, leb, ◌==◌}
use portapixel.Server.Rows.{TokenRow, Tables}

-- A token with a limit is used no more often than that.
abbrev pub InLimit : TokenRow → Type 0
InLimit t = (t.max_uses == 0 || leb t.uses t.max_uses) ≡ true

abbrev Limited : Tables → Type 0
Limited d = AllIn InLimit d.tokens
