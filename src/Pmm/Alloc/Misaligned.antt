-- ===== src/Pmm/Alloc/Misaligned.antt =====
-- `frame_alloc` at an alignment of two frames or more. A misaligned frame is passed over by a
-- `continue` that does not move the mask on, so the bit tested is no longer that of the frame.
use Prim.Native.Nat.add
use unix_p.Prelude.Memory.{Memory}
use unix_p.Pmm.{Pmm}
