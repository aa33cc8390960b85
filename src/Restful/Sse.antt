-- ===== src/Restful/Sse.antt =====
-- The messages of /exec, as server-sent events.
pub mod Laws
use ovm.Base.{Bytes, bytes, ◌∷◌, ◌++◌}
use ovm.Text.Split.{replace_byte}
use ovm.Text.Trim.{trim_space}

abbrev pub data_field : Bytes
data_field = bytes "data: "

-- `encodeSSE`
unfoldable pub encode_sse : Bytes → Bytes
encode_sse str = replace_byte b'\n' (b'\n' ∷ data_field) (trim_space str)

-- The two writes for a message of a kind, `error` or `out`.
unfoldable pub event_text : Bytes → Bytes → Bytes
unfolding encode_sse
event_text kind text =
    (bytes "event: " ++ kind ++ bytes "\n") ++ (data_field ++ (encode_sse text ++ bytes "\n\n"))
