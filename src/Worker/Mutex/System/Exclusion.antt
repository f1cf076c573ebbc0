-- ===== src/Worker/Mutex/System/Exclusion.antt =====
-- What the algorithm of Worker/worker.cpp promises: of all workers one at most writes to the database,
-- and no reply is lost. It does not promise that a worker gets to write: two requests that wait for each
-- other do so forever.
