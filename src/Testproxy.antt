-- ===== src/Testproxy.antt =====
-- The proxies between servers of the tests (testproxy/udp.go, testproxy/tcp.go), each a goroutine
-- with a loop, and the calls of Timeout and Stop by a test. Times are nanoseconds from time's zero
-- on.
pub mod Udp
pub mod Tcp
