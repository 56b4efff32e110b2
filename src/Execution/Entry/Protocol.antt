-- ===== src/Execution/Entry/Protocol.antt =====
-- What `ExecutionManager.execute` of execution/manager.py promises of every call, whatever the
-- exchange answers.
use ai_coinletgo.Decimal.{Decimal}
use ai_coinletgo.Execution.Session.{Session}
use ai_coinletgo.Execution.Gateway.{Gateway}
use ai_coinletgo.Execution.Entry.Audit.{Audit}
