-- ===== src/Message/Codec/Safety.antt =====
-- Which inputs `DeserializeClientMessage` refuses, and on which it panics.
