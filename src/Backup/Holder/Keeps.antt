-- ===== src/Backup/Holder/Keeps.antt =====
-- Closing holders leaves the live databases as they are.
use pgmem.Backup.Program.Keeps.{Spares}
use pgmem.Backup.Program.{discard}
use pgmem.Backup.Holder.{close_holder, close_holders, RestoredSchemaHolder}
use pgmem.Common.{Option, List, ◌∷◌, [], ◌∙◌, refl}
use pgmem.Common.Text.{Text}
use pgmem.Backup.Storage.{Storage}
use pgmem.Backup.Documented.{Documented}

module _ {W D : Type 0} (storage : Storage W) (decode : Text → D) (live : W → Text → D)
    (shared : W → Text → Option D) (files : W → Text → Option Text)
    (laws : Documented storage decode live shared files) where
  pub close_holder-Spares :
      (holder : RestoredSchemaHolder) → Spares live (close_holder storage holder)
  unfolding close_holder discard
  close_holder-Spares holder = record {
    spared = λ p.
        laws.close_pool_live holder.database _ ∙ laws.close_conn_live holder.connection p.world;
  }

  pub close_holders-Spares :
      (holders : List RestoredSchemaHolder) → Spares live (close_holders storage holders)
  unfolding close_holders
  close_holders-Spares [] = record { spared = λ p. refl }
  close_holders-Spares (holder ∷ holders) = record {
    spared = λ p.
        (close_holders-Spares holders).spared (close_holder storage holder p)
        ∙ (close_holder-Spares holder).spared p;
  }
