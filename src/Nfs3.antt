-- ===== src/Nfs3.antt =====
-- nfsdump2/nfs_v3.c: the printers that walk a payload word by word, each a function of the
-- payload's words, the end `e` and the flag `print`, the printers of decoded values, and the
-- messages. The strings are in `Text`.
pub mod Wire
pub mod Attr
pub mod Resp
pub mod Args
pub mod Call
