-- ===== src/Nursery/Life.antt =====
-- When the parent of a nursery is resumed (Nursery.h).
use hf_qcorral.Nursery.{Nursery}
use hf_qcorral.Nursery.Stage.{Stage}
