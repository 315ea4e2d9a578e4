-- ===== src/Obd/LiveReads.antt =====
-- What requests of live data give, and how many.
use rpi_speeduino_dashboard.Obd.Request.{Obd}
use rpi_speeduino_dashboard.Obd.Exchange.{Exchange}
use rpi_speeduino_dashboard.Obd.LiveData.{LiveData}
