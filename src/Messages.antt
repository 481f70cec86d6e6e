-- ===== src/Messages.antt =====
-- comm/AgvSchProtocol.h and comm/AgvSchProtocol.cpp: the messages that the frames carry.
pub mod Reports
pub mod Commands
pub mod Path
