-- ===== src/Tests.antt =====
-- The theorems at concrete inputs, and runs of the code.
mod KernelTests
mod QueueTests
mod ServerTests
mod ShellTests
mod RequestTests
mod RioTests
mod MallocTests
mod JobsTests
mod ParsingTests
mod ArenaTests
mod WrapperTests
