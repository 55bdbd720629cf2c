-- ===== src/Install/Places/Arrive.antt =====
-- Whatever byte arrives: app-mgr/app-manager/module_wasm_app.c.
