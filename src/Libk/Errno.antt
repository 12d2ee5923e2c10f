-- ===== src/Libk/Errno.antt =====
-- The error texts of src/libk/errno.c.
use ukulele.Base.{ℕ, List, [], ◌∷◌, String, length, get_or, u32, ltb, if◌then◌else◌}

-- `messages`, in the order of the error numbers of src/libk/kerrno.h.
abbrev pub messages : List String
messages =
    "Success" ∷ "Input/output error" ∷ "Operation not supported" ∷ "Device not a stream"
    ∷ "Out of stream resources" ∷ []

abbrev pub unknown : String
unknown = "Unknown error"

abbrev pub error_count : ℕ
error_count = length messages

-- No entry of the table is null.
pub cstrerror : ℕ → String
cstrerror errnum = if ltb errnum error_count then get_or messages errnum unknown else unknown

pub strerror : ℕ → String
unfolding cstrerror
strerror errnum = cstrerror (u32 errnum)
