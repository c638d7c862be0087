-- ===== src/Process/Dlq/Names.antt =====
-- `sanitizeObjectName`, and the name under which a record is kept.
use shortcut.Prelude.{ℕ, Bool, Bytes, codes, itoa, ◌∷◌, ◌++◌, map, ◌==◌, ◌||◌, if◌then◌else◌}

abbrev pub is_unsafe : ℕ → Bool
is_unsafe c = c == b'/' || c == b'\\' || c == b':' || c == b' '

-- The replacer replaces each of four bytes by an underscore.
unfoldable pub replace_byte : ℕ → ℕ
replace_byte c = if is_unsafe c then b'_' else c

unfoldable pub sanitize_object_name : Bytes → Bytes
unfolding replace_byte
sanitize_object_name raw = map replace_byte raw

-- `fmt.Sprintf("invalid/%d-%s.json", nanos, sanitizeObjectName(messageID))`
unfoldable pub object_name : ℕ → Bytes → Bytes
object_name nanos message_id =
    codes "invalid/" ++ (itoa nanos ++ (b'-' ∷ (sanitize_object_name message_id ++ codes ".json")))
