-- ===== src/Status.antt =====
-- The return values of the tag functions and of the RPC responses.

-- `success` is 0 and `failed` is -1; the other three are the negated codes of errno.h.
pub data Status : Type 0 where
  success failed einval erange enoent : Status
