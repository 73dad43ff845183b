-- ===== src/GlobalHeap/Spread.antt =====
-- `build_collections` puts each object where it says.
use oxih.Bytes.{Bytes}
use oxih.GlobalHeap.Groups.{Serialized}
