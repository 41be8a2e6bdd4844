-- ===== src/Adapter/Overlap.antt =====
-- atb_adapter/server_tcpsrv.cpp: two workers that serve the login of one client id at once.
use vm.Prelude.Text.{Text, text_key}
